-- ===== src/Errs/Chains.antt =====
-- core/errs/errs.go: what wrapping keeps of an error.
use sora_client.Prelude.{String, ◌≡◌, refl, sym, ◌∙◌, append_assoc, ap, Bool, List, [], ◌∷◌, ◌++◌}
use sora_client.Errs.{
  Code, Key, Fields, Err, wrapping, joined, as_catalog, chain, wrap, code_of, key_of, retryable,
}

-- `fmt.Errorf("…%w")` once for each text, the first outermost.
abbrev pub layers : List String → Err → Err
layers [] e = e
layers (t ∷ ts) e = wrapping t (layers ts e)

as_catalog-layers : (ts : List String) (e : Err) → as_catalog (layers ts e) ≡ as_catalog e
unfolding as_catalog
as_catalog-layers [] e = refl
as_catalog-layers (t ∷ ts) e = as_catalog-layers ts e

chain-layers :
    (ts : List String) (e : Err) → (outer : List Err) × (chain (layers ts e) ≡ outer ++ chain e)
unfolding chain
chain-layers [] e = ([], refl)
chain-layers (t ∷ ts) e =
    let (outer, eq) = chain-layers ts e in
    (wrapping t (layers ts e) ∷ outer, ap (λ c. wrapping t (layers ts e) ∷ c) eq)

chain-wrap :
    (rk : Key → Bool) (e : Err) (c : Code) (k : Key)
    → chain (wrap rk e c k) ≡ wrap rk e c k ∷ chain e
unfolding wrap chain
chain-wrap rk e c k = refl

-- An error that `Wrap` gives a code and a key keeps both under any layers of `fmt.Errorf`, also when
-- it is joined with a later error, asks for a retry exactly if the catalog says so of its key, and
-- has its cause in its chain.
pub wrap-keeps :
    (rk : Key → Bool) (classify : Err → Fields) (ts : List String) (e other : Err) (c : Code)
    (k : Key)
    → let w = layers ts (wrap rk e c k) in
      (code_of classify (joined w other) ≡ c)
      × (key_of classify (joined w other) ≡ k)
      × (retryable w ≡ rk k)
      × ((outer : List Err) × (chain w ≡ outer ++ chain e))
unfolding code_of key_of wrap as_catalog retryable
wrap-keeps rk classify ts e other c k =
    let w = wrap rk e c k in
    let (outer, eq) = chain-layers ts w in
    (
      rw (code_of, as_catalog-layers ts w) refl,
      rw (key_of, as_catalog-layers ts w) refl,
      rw (retryable, as_catalog-layers ts w) refl,
      (
        outer ++ w ∷ [],
        eq
            ∙ ap (λ l. outer ++ l) (chain-wrap rk e c k)
            ∙ sym (append_assoc outer (w ∷ []) (chain e)),
      ),
    )
