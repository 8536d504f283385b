-- ===== src/Azure/Market/Tokens.antt =====
-- Whose token the requests carry.
use gardenlinux.Prelude.{◌≡◌, refl, ◌∙◌, String, ◌<>◌, false, none, some, is_none, string_eq, arith}
use gardenlinux.Prelude.Dicts.{Dict, lookup, set_default, lookup-insert}
use gardenlinux.Azure.Market.{Web, Session, Body, with_headers, with_params, request_by_default}

abbrev pub authorization : String
authorization = "Authorization"

set_default-lookup :
    (k v j : String) (d : Dict String)
    → is_none (lookup j d) ≡ false
    → lookup j (set_default k v d) ≡ lookup j d
unfolding set_default
set_default-lookup k v j d h = ground (arith, lookup-insert k j v d, string_eq.equals_iff k j)

set_default_there :
    (k v : String) (d : Dict String) → lookup k d ≡ none → lookup k (set_default k v d) ≡ some v
unfolding set_default
set_default_there k v d h = ground (arith, h, lookup-insert k k v d, string_eq.equals_iff k k)

-- The header of a client is set where there is none, and kept where there is one.
with_headers-first :
    (token : String) (headers : Dict String)
    → lookup authorization headers ≡ none
    → lookup authorization (with_headers token headers) ≡ some ("Bearer " <> token)
unfolding with_headers
with_headers-first token headers h =
    let there = set_default_there authorization ("Bearer " <> token) headers h in
    set_default-lookup "Content-Type" "application/json" authorization _ (rw there refl) ∙ there

with_headers-kept :
    (token held : String) (headers : Dict String)
    → lookup authorization headers ≡ some held
    → lookup authorization (with_headers token headers) ≡ some held
unfolding with_headers
with_headers-kept token held headers h =
    let kept : lookup authorization (set_default authorization ("Bearer " <> token) headers)
        ≡ some held =
      set_default-lookup authorization ("Bearer " <> token) authorization headers (rw h refl) ∙ h in
    set_default-lookup "Content-Type" "application/json" authorization _ (rw kept refl) ∙ kept

module _ (W : Web) where
  -- Where no token is among the shared headers yet, a client makes a request without headers of its
  -- own, and then another client does: the request of the second carries the token of the first.
  pub request_by_default_stale :
      (first second : String) (s : Session W) (method url method' url' : String) (body body' : Body)
      → lookup authorization s.headers ≡ none
      → let s' = (request_by_default W first method url body s).1 in
        (headers : Dict String) × (params : Dict String) × (lookup authorization headers
          ≡ some ("Bearer " <> first))
        × ((request_by_default W second method' url' body' s').0
            ≡ (W.request method' url' headers params body' s'.world).0)
  unfolding request_by_default
  request_by_default_stale first second s method url method' url' body body' none_yet =
      let s' = (request_by_default W first method url body s).1 in
      (
        with_headers second s'.headers,
        with_params s'.params,
        with_headers-kept second ("Bearer " <> first) s'.headers
            (with_headers-first first s.headers none_yet),
        refl,
      )
