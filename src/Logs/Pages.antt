-- ===== src/Logs/Pages.antt =====
-- core/logs/logs.go: reading the record page by page with the cursors that `Query` returns.
use sora_client.Prelude.{
  ℕ, zero, suc, ◌-◌, ◌≤◌, ◌<◌, ◌≡◌, refl, sym, subst, ◌∙◌, ap, Bool, true, false, ◌||◌, not,
  Bool-cases, inl, inr, List, [], ◌∷◌, ◌++◌, append-nil, length-append, length-keep-le, arith,
  length, take, drop, take-append-drop, take_all, length-drop, keep, ltb, ◌==◌, if◌then◌else◌,
}
use mathlib.Core.List.{reverse, reverse-cons}
use sora_client.Logs.Entries.{Bytes, Entry, Filter, matches}
use sora_client.Logs.{Center}
use sora_client.Logs.Sequence.{Falling, IsNumbered, Rising-reverse}
use sora_client.Logs.Query.{past, page_size, last_seq, query, matching, selected, query_lem}

module _ (hide : Bytes → Bytes) (lower : Bytes → Bytes) where
  abbrev found : Filter → ℕ → List Entry → List Entry
  found f before es = selected hide lower f before es

  Falling-range : (lo hi : ℕ) (es : List Entry) → Falling lo hi es → lo < hi
  Falling-range lo hi [] h = h
  Falling-range lo hi (e ∷ rest) h =
      let r = Falling-range lo e.seq rest h.1 in let q = h.0 in omega arith

  -- Below a cursor every entry is on offer.
  found_below :
      (f : Filter) (b lo hi : ℕ) (es : List Entry)
      → hi ≤ b
      → Falling lo hi es
      → found f b es ≡ found f 0 es
  found_below f b lo hi [] le h = refl
  found_below f b lo hi (e ∷ rest) le h =
      ground (arith, found_below f b lo e.seq rest (omega arith) h.1)

  last_seq-cons :
      (e : Entry) (k : ℕ) (es : List Entry)
      → k < length es
      → last_seq (e ∷ take (suc k) es) ≡ last_seq (take (suc k) es)
  last_seq-cons e k [] lt = absurd (omega arith)
  last_seq-cons e k (d ∷ rest) lt = refl

  found-skip :
      (f : Filter) (before : ℕ) (e : Entry) (rest : List Entry)
      → past before e || not (matches lower f e) ≡ true
      → found f before (e ∷ rest) ≡ found f before rest
  found-skip f before e rest h = simp h

  found-cons :
      (f : Filter) (before : ℕ) (e : Entry) (rest : List Entry)
      → past before e || not (matches lower f e) ≡ false
      → found f before (e ∷ rest) ≡ e ∷ found f before rest
  found-cons f before e rest h = simp h

  found_past :
      (f : Filter) (b : ℕ) (e : Entry) (rest : List Entry)
      → 0 < b
      → b ≤ e.seq
      → found f b (e ∷ rest) ≡ found f b rest
  found_past f b e rest pos le = found-skip f b e rest (ground arith)

  -- An entry below a cursor is on offer again if the cursor is none.
  found_rest :
      (f : Filter) (before lo hi : ℕ) (e : Entry) (rest : List Entry)
      → Falling lo e.seq rest
      → past before e || not (matches lower f e) ≡ false
      → found f e.seq rest ≡ found f before rest
  found_rest f before lo hi e rest h p =
      found_below f e.seq lo e.seq rest (omega arith) h ∙ elim (Bool-cases (before == 0)) [
        | inl z ↦ let q : before ≡ 0 = ground arith in ap (λ v. found f v rest) (sym q)
        | inr z ↦ sym (found_below f before lo e.seq rest (ground arith) h)
      ]

  -- What the cursor after `suc k` of the entries `taken` offers.
  abbrev IsNext : Filter → ℕ → ℕ → ℕ → List Entry → List Entry → Type 0
  IsNext f k lo hi es taken =
      let b = last_seq (take (suc k) taken) in
      (lo < b) × ((b < hi) × (found f b es ≡ drop (suc k) taken))

  IsNext-skip :
      (f : Filter) (k lo hi : ℕ) (e : Entry) (rest taken : List Entry)
      → e.seq < hi
      → IsNext f k lo e.seq rest taken
      → IsNext f k lo hi (e ∷ rest) taken
  IsNext-skip f k lo hi e rest taken lt (above, (below, eq)) = (
    above,
    (
      omega arith,
      found_past f (last_seq (take (suc k) taken)) e rest (omega arith) (omega arith) ∙ eq,
    ),
  )

  IsNext-cons :
      (f : Filter) (k lo hi : ℕ) (e : Entry) (rest taken : List Entry)
      → e.seq < hi
      → lo < e.seq
      → found f e.seq rest ≡ taken
      → k < length (e ∷ taken)
      → ((j : ℕ) → j < length taken → IsNext f j lo e.seq rest taken)
      → IsNext f k lo hi (e ∷ rest) (e ∷ taken)
  IsNext-cons f zero lo hi e rest taken lt above eq n next =
      (above, (lt, found_past f e.seq e rest (omega arith) (omega arith) ∙ eq))
  IsNext-cons f (suc k) lo hi e rest [] lt above eq n next = absurd (omega arith)
  IsNext-cons f (suc k) lo hi e rest (d ∷ taken) lt above eq n next =
      IsNext-skip f k lo hi e rest (d ∷ taken) lt (next k (omega arith))

  IsNext-both :
      (f : Filter) (k lo hi : ℕ) (es taken : List Entry)
      → IsNext f k lo hi es taken
      → (lo < last_seq (take (suc k) taken))
        × (found f (last_seq (take (suc k) taken)) es ≡ drop (suc k) taken)
  IsNext-both f k lo hi es taken h = (h.0, h.1.1)

  -- A cursor lies where its page's entries do, and what it offers is what the page left.
  found-IsNext :
      (f : Filter) (before k lo hi : ℕ) (es : List Entry)
      → Falling lo hi es
      → k < length (found f before es)
      → IsNext f k lo hi es (found f before es)
  found-IsNext f before k lo hi [] h lt = absurd (omega arith)
  found-IsNext f before k lo hi (e ∷ rest) (lt, h) n =
      elim (Bool-cases (past before e || not (matches lower f e))) [
        | inl p ↦
            let eq = found-skip f before e rest p in
            subst (IsNext f k lo hi (e ∷ rest)) (sym eq) (
              IsNext-skip f k lo hi e rest (found f before rest) lt
                (found-IsNext f before k lo e.seq rest h (subst (λ v. k < length v) eq n)))
        | inr p ↦
            let eq = found-cons f before e rest p in
            subst (IsNext f k lo hi (e ∷ rest)) (sym eq) (
              IsNext-cons f k lo hi e rest (found f before rest) lt (Falling-range lo e.seq rest h)
                (found_rest f before lo hi e rest h p) (subst (λ v. k < length v) eq n)
                (λ j. found-IsNext f before j lo e.seq rest h))
      ]

  -- Every page, following the cursor of each until there is none.
  pub pages : ℕ → Filter → ℕ → ℕ → Center → List Entry
  pages zero f before limit c = []
  pages (suc fuel) f before limit c =
      let (page, next) = query hide lower f before limit c in
      let rest = pages fuel f next limit c in if next == 0 then page else page ++ rest

  page_size-suc : (limit : ℕ) → page_size limit ≡ suc (page_size limit - 1)
  page_size-suc limit = ground arith

  -- A page and what its cursor leads to make up the whole.
  join_page :
      (k : ℕ) (all : List Entry) (go : ℕ → List Entry)
      → (k < length all → 0 < last_seq (take k all))
      → (k < length all → go (last_seq (take k all)) ≡ drop k all)
      → (let next = if ltb k (length all) then last_seq (take k all) else 0 in
          if next == 0 then take k all else take k all ++ go next)
        ≡ all
  join_page k all go pos eq = elim (Bool-cases (ltb k (length all))) [
    | inl more ↦
        let lt : k < length all = ground arith in
        let z : last_seq (take k all) == 0 ≡ false = let q = pos lt in ground arith in
        simp (more, z, eq lt, take-append-drop k all)
    | inr full ↦ simp (full, take_all k all (ground arith))
  ]

  pages_lem :
      (fuel : ℕ) (f : Filter) (before limit : ℕ) (c : Center)
      → IsNumbered c
      → length (found f before (reverse c.entries)) < fuel
      → pages fuel f before limit c ≡ found f before (reverse c.entries)
  unfolding pages
  pages_lem zero f before limit c h n = absurd (omega arith)
  pages_lem (suc fuel) f before limit c h n =
      let all = found f before (reverse c.entries) in
      let size = page_size-suc limit in
      let r = λ (lt : page_size limit < length all).
        subst
          (λ s.
            (0 < last_seq (take s all))
            × (found f (last_seq (take s all)) (reverse c.entries) ≡ drop s all))
          (sym size)
          (IsNext-both f (page_size limit - 1) 0 c.next (reverse c.entries) all (
            found-IsNext f before (page_size limit - 1) 0 c.next (reverse c.entries)
              (Rising-reverse 0 c.next c.entries h) (omega arith))) in
      rw (query_lem hide lower f before limit c) (
        join_page (page_size limit) all (λ b. pages fuel f b limit c) (λ lt. (r lt).0)
          (λ lt.
            pages_lem fuel f (last_seq (take (page_size limit) all)) limit c h
              (subst (λ v. length v < fuel) (sym (r lt).1) (rw length-drop (omega arith)))
            ∙ (r lt).1))

  keep-append : (p : Entry → Bool) (es ds : List Entry) → keep p (es ++ ds) ≡ keep p es ++ keep p ds
  keep-append p [] ds = refl
  keep-append p (e ∷ es) ds = ground (arith, keep-append p es ds)

  keep-reverse : (p : Entry → Bool) (es : List Entry) → keep p (reverse es) ≡ reverse (keep p es)
  keep-reverse p [] = refl
  keep-reverse p (e ∷ es) =
      rw (reverse-cons, keep-append, keep-reverse p es)
        (elim (Bool-cases (p e)) [ inl y ↦ simp (y, reverse-cons) | inr n ↦ simp (n, append-nil) ])

  found-all : (f : Filter) (es : List Entry) → found f 0 es ≡ keep (matches lower f) es
  found-all f [] = refl
  found-all f (e ∷ rest) = ground (arith, found-all f rest)

  length-reverse : (es : List Entry) → length (reverse es) ≡ length es
  length-reverse [] = refl
  length-reverse (e ∷ es) = rw (reverse-cons, length-append, length-reverse es) (omega arith)

  under_fuel :
      (f : Filter) (fuel : ℕ) (es : List Entry)
      → length es < fuel
      → length (found f 0 (reverse es)) < fuel
  under_fuel f fuel es n = omega (
    arith,
    length-reverse es,
    length-keep-le (λ e. not (past 0 e || not (matches lower f e))) (reverse es),
  )

  -- In a record whose sequence numbers rise, following the cursors of `Query` from the newest page
  -- to the last, with any page limit, reads exactly what `Matching` returns, newest first: no
  -- matching entry is skipped or read twice. One page more than
  -- there are entries is enough.
  pub pages-matching :
      (fuel : ℕ) (f : Filter) (limit : ℕ) (c : Center)
      → IsNumbered c
      → length c.entries < fuel
      → pages fuel f 0 limit c ≡ reverse (matching hide lower f c)
  unfolding matching
  pages-matching fuel f limit c h n =
      pages_lem fuel f 0 limit c h (under_fuel f fuel c.entries n)
      ∙ found-all f (reverse c.entries)
      ∙ keep-reverse (matches lower f) c.entries
