-- ===== src/Logs/Query.antt =====
-- core/logs/logs.go and core/logs/watch.go: `Query`, `Matching` and the replay of `Watch`, and what
-- they select.
use sora_client.Prelude.{
  ℕ, zero, suc, ◌+◌, ◌≡◌, sym, ◌∙◌, ap, Bool, true, false, ◌&&◌, ◌||◌, not, Bool-cases, inl, inr,
  List, [], ◌∷◌, ◌++◌, append_assoc, append-nil, arith, length, length-append, take, keep, ltb, leb,
  ◌==◌, if◌then◌else◌,
}
use mathlib.Core.List.{reverse}
use sora_client.Logs.Entries.{Bytes, Entry, Filter, matches}
use sora_client.Logs.{Center, Watcher}

abbrev pub max_page : ℕ
max_page = 1000

-- The sequence number of the last entry, 0 if there is none.
abbrev pub last_seq : List Entry → ℕ
last_seq [] = 0
last_seq (e ∷ []) = e.seq
last_seq (e ∷ d ∷ rest) = last_seq (d ∷ rest)

-- `before != 0 && e.Seq >= before`
abbrev pub past : ℕ → Entry → Bool
past before e = not (before == 0) && leb before e.seq

abbrev pub page_size : ℕ → ℕ
page_size limit = if limit == 0 || ltb max_page limit then max_page else limit

module _ (hide : Bytes → Bytes) (lower : Bytes → Bytes) where
  -- The loop of `Query` over the entries from the newest on: the page and its `Before`.
  query_loop : Filter → ℕ → ℕ → List Entry → List Entry → List Entry × ℕ
  query_loop f before limit [] page = (page, 0)
  query_loop f before limit (e ∷ rest) page =
      let skip = query_loop f before limit rest page in
      let more = query_loop f before limit rest (page ++ e ∷ []) in
      if past before e || not (matches lower f e)
      then skip
      else if length page == limit
      then (page, last_seq page)
      else more

  unfoldable pub query : Filter → ℕ → ℕ → Center → List Entry × ℕ
  unfolding query_loop
  query f before limit c = query_loop f before (page_size limit) (reverse c.entries) []

  -- `Matching`
  unfoldable pub matching : Filter → Center → List Entry
  matching f c = keep (matches lower f) c.entries

  -- `Watch`: the channel is filled with the replay and has room for 512 entries more.
  unfoldable pub watch : Filter → ℕ → Center → Watcher
  watch f after c =
      let replay = keep (λ e. ltb after e.seq && matches lower f e) c.entries in
      record { filter = f; buffer = length replay + 512; queue = replay; lost = 0 }

  -- What a page is taken from.
  abbrev pub selected : Filter → ℕ → List Entry → List Entry
  selected f before = keep (λ e. not (past before e || not (matches lower f e)))

  -- Whether the loop passes an entry by.
  abbrev passed_by : Filter → ℕ → Entry → Bool
  passed_by f before e = past before e || not (matches lower f e)

  query_loop-skip :
      (f : Filter) (before limit : ℕ) (e : Entry) (rest page : List Entry)
      → passed_by f before e ≡ true
      → query_loop f before limit (e ∷ rest) page ≡ query_loop f before limit rest page
  unfolding query_loop
  query_loop-skip f before limit e rest page h = simp h

  query_loop-full :
      (f : Filter) (before limit : ℕ) (e : Entry) (rest page : List Entry)
      → passed_by f before e ≡ false
      → length page == limit ≡ true
      → query_loop f before limit (e ∷ rest) page ≡ (page, last_seq page)
  unfolding query_loop
  query_loop-full f before limit e rest page h full = simp (h, full)

  query_loop-more :
      (f : Filter) (before limit : ℕ) (e : Entry) (rest page : List Entry)
      → passed_by f before e ≡ false
      → length page == limit ≡ false
      → query_loop f before limit (e ∷ rest) page ≡ query_loop f before limit rest (page ++ e ∷ [])
  unfolding query_loop
  query_loop-more f before limit e rest page h full = simp (h, full)

  selected-skip :
      (f : Filter) (before : ℕ) (e : Entry) (rest : List Entry)
      → passed_by f before e ≡ true
      → selected f before (e ∷ rest) ≡ selected f before rest
  selected-skip f before e rest h = simp h

  selected-cons :
      (f : Filter) (before : ℕ) (e : Entry) (rest : List Entry)
      → passed_by f before e ≡ false
      → selected f before (e ∷ rest) ≡ e ∷ selected f before rest
  selected-cons f before e rest h = simp h

  -- The page and its cursor, once `page` is taken and `k` more entries fit.
  abbrev page_of : ℕ → List Entry → List Entry → List Entry × ℕ
  page_of k page found =
      (page ++ take k found, if ltb k (length found) then last_seq (page ++ take k found) else 0)

  -- One entry more, when it is not passed by.
  query_loop_take :
      (f : Filter) (before limit k : ℕ) (e : Entry) (rest page : List Entry)
      → passed_by f before e ≡ false
      → length page + k ≡ limit
      → ((j : ℕ)
          → length (page ++ e ∷ []) + j ≡ limit
          → query_loop f before limit rest (page ++ e ∷ [])
            ≡ page_of j (page ++ e ∷ []) (selected f before rest))
      → query_loop f before limit (e ∷ rest) page ≡ page_of k page (e ∷ selected f before rest)
  query_loop_take f before limit zero e rest page h len next =
      query_loop-full f before limit e rest page h (ground arith) ∙ ground (arith, append-nil page)
  query_loop_take f before limit (suc k) e rest page h len next =
      query_loop-more f before limit e rest page h (ground arith)
      ∙ next k (rw length-append (omega arith))
      ∙ ground (arith, append_assoc page (e ∷ []) (take k (selected f before rest)))

  query_loop_lem :
      (f : Filter) (before limit k : ℕ) (es page : List Entry)
      → length page + k ≡ limit
      → query_loop f before limit es page ≡ page_of k page (selected f before es)
  unfolding query_loop
  query_loop_lem f before limit zero [] page e = rw append-nil
  query_loop_lem f before limit (suc k) [] page e = ground (arith, append-nil page)
  query_loop_lem f before limit k (x ∷ rest) page e = elim (Bool-cases (passed_by f before x)) [
    | inl h ↦
        query_loop-skip f before limit x rest page h
        ∙ query_loop_lem f before limit k rest page e
        ∙ ap (page_of k page) (sym (selected-skip f before x rest h))
    | inr h ↦
        query_loop_take f before limit k x rest page h e
          (λ j r. query_loop_lem f before limit j rest (page ++ x ∷ []) r)
        ∙ ap (page_of k page) (sym (selected-cons f before x rest h))
  ]

  -- A page holds the newest selected entries, up to its size, and names the cursor of the next page
  -- exactly if more are selected.
  pub query_lem :
      (f : Filter) (before limit : ℕ) (c : Center)
      → let found = selected f before (reverse c.entries) in
        query f before limit c ≡ (
          take (page_size limit) found,
          if ltb (page_size limit) (length found)
              then last_seq (take (page_size limit) found)
              else 0,
        )
  unfolding query
  query_lem f before limit c =
      query_loop_lem f before (page_size limit) (page_size limit) (reverse c.entries) []
        (omega arith)
