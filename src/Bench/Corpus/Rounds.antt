-- ===== src/Bench/Corpus/Rounds.antt =====
-- client-bench/src/corpus.h: next goes round the lines.
use io_uring_net_engine.Prelude.{
  ℕ, zero, suc, ◌+◌, ◌≤◌, ◌≡◌, refl, sym, ◌∙◌, ap, ap₂, arith, true, false, List, [], ◌∷◌, ◌++◌,
  append_assoc, length, length-append, get_or, ◌==◌,
}
use io_uring_net_engine.Epoll.State.{Bytes}
use io_uring_net_engine.Bench.Corpus.{Corpus, next}

-- The lines that this many calls of next give.
abbrev pub nexts : ℕ → Corpus → List Bytes × Corpus
nexts zero c = ([], c)
nexts (suc n) c = let rest = nexts n (next c).1 in ((next c).0 ∷ rest.0, rest.1)

get_or-append : (xs ys : List Bytes) (y : Bytes) → get_or (xs ++ (y ∷ ys)) (length xs) [] ≡ y
get_or-append [] ys y = refl
get_or-append (x ∷ xs) ys y = get_or-append xs ys y

module _ (before : List Bytes) (c : Corpus) (at_end : c.cursor ≡ length before) where
  -- One call.
  next_line : (l : Bytes) (behind : List Bytes) → c.lines ≡ before ++ (l ∷ behind) → (next c).0 ≡ l
  unfolding next
  next_line l behind is = rw (is, at_end) (get_or-append before behind l)

  last_call : (l : Bytes) → c.lines ≡ before ++ (l ∷ []) → (next c).1 ≡ record c { cursor = 0 }
  unfolding next
  last_call l is = rw whole refl
    where
      whole : (c.cursor + 1 == length c.lines) ≡ true
      whole = ground (arith, at_end, ap length is, length-append before (l ∷ []))

  inner_call :
      (l m : Bytes) (behind : List Bytes)
      → c.lines ≡ before ++ (l ∷ (m ∷ behind))
      → (next c).1 ≡ record c { cursor = c.cursor + 1 }
  unfolding next
  inner_call l m behind is = rw more refl
    where
      more : (c.cursor + 1 == length c.lines) ≡ false
      more = ground (arith, at_end, ap length is, length-append before (l ∷ (m ∷ behind)))

nexts_from :
    (before : List Bytes) (l : Bytes) (behind : List Bytes) (c : Corpus)
    → c.lines ≡ before ++ (l ∷ behind)
    → c.cursor ≡ length before
    → nexts (length (l ∷ behind)) c ≡ (l ∷ behind, record c { cursor = 0 })
nexts_from before l [] c is at_end =
    ap₂ (λ a b. (a ∷ [], b)) (next_line before c at_end l [] is) (last_call before c at_end l is)
nexts_from before l (m ∷ behind) c is at_end =
    let c' = record c { cursor = c.cursor + 1 } in
    ap₂ (λ a b. (a ∷ (nexts (length (m ∷ behind)) b).0, (nexts (length (m ∷ behind)) b).1))
      (next_line before c at_end l (m ∷ behind) is) (inner_call before c at_end l m behind is)
    ∙ ap {A = List Bytes × Corpus} (λ r. (l ∷ r.0, r.1))
        (nexts_from (before ++ (l ∷ [])) m behind c'
          (is ∙ sym (append_assoc before (l ∷ []) (m ∷ behind)))
          (omega (arith, at_end, length-append before (l ∷ []))))

-- From the first line, as many calls of next as there are lines give each line once, in order, and
-- lead back to the first one.
pub nexts_round :
    (c : Corpus) → c.cursor ≡ 0 → 1 ≤ length c.lines → nexts (length c.lines) c ≡ (c.lines, c)
nexts_round c start some_line = go c.lines refl some_line
  where
    go : (ls : List Bytes) → c.lines ≡ ls → 1 ≤ length ls → nexts (length c.lines) c ≡ (c.lines, c)
    go [] e h = elim h [ ]
    go (l ∷ ls) e h =
        ap (λ n. nexts n c) (ap length e)
        ∙ nexts_from [] l ls c e start
        ∙ ap₂ (λ a k. (a, record c { cursor = k })) (sym e) (sym start)
