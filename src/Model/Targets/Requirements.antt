-- ===== src/Model/Targets/Requirements.antt =====
-- What `check_requirements` accepts, and how `set_from_str` reads a list of values.
use Prim.Native.Char.{code}
use gardenlinux.Prelude.{
  sym, ◌∙◌, ◌≡◌, refl, ap, ◌↔◌, inl, inr, String, Bool, true, false, List, [], ◌∷◌, map,
  if◌then◌else◌, string_eq, Bool-cases, contains, to_set, add, split, strip, has_char, join,
  split-join, All, is_nil, eq_of_beq, is_nil-add, all, all_contains, all_of_contains,
  contains-to_set, arith,
}
use gardenlinux.Prelude.Result.{ok, err, value_error, ◌>>◌, map_result, >>=-ok}
use gardenlinux.Model.Targets.{
  BuildTarget, base_build, build, manifest, component_descriptor, tests, publish, freeze_version,
  github_release, value, requires, members, first_value, from_value, from_value-value, target_eq,
  missing, check_members, check_requirements, set_from_str,
}

-- The same table over targets.
required : BuildTarget → List BuildTarget
required base_build = []
required build = []
required manifest = build ∷ []
required component_descriptor = build ∷ []
required tests = build ∷ []
required publish = build ∷ manifest ∷ component_descriptor ∷ []
required freeze_version = base_build ∷ build ∷ manifest ∷ component_descriptor ∷ []
required github_release = base_build ∷ build ∷ manifest ∷ component_descriptor ∷ freeze_version ∷ []

requires-required : (e : BuildTarget) → requires e ≡ map value (required e)
unfolding requires required value
requires-required base_build = refl
requires-required build = refl
requires-required manifest = refl
requires-required component_descriptor = refl
requires-required tests = refl
requires-required publish = refl
requires-required freeze_version = refl
requires-required github_release = refl

contains-map-value :
    (ts : List BuildTarget) (t : BuildTarget) → contains (map value ts) (value t) ≡ contains ts t
unfolding contains
contains-map-value [] t = refl
contains-map-value (u ∷ ts) t = ground (arith, contains-map-value ts t)

missing-map-value :
    (s ts : List BuildTarget)
    → (l : List String) × (missing s (map value ts) ≡ ok l) × (is_nil l ≡ all (contains s) ts)
unfolding missing all
missing-map-value s [] = ([], refl, refl)
missing-map-value s (t ∷ ts) =
    let (l, p, n) = missing-map-value s ts in
    (
      if contains s t then l else add (value t) l,
      rw (from_value-value, p),
      ground (arith, n, is_nil-add l (value t)),
    )

-- The members are complete: what each requires is in the set.
complete : List BuildTarget → List BuildTarget → Bool
complete s = all (λ e. all (contains s) (required e))

check_members-eq :
    (s es : List BuildTarget)
    → check_members s es ≡ (if complete s es then ok tt else err value_error)
unfolding check_members complete all
check_members-eq s [] = refl
check_members-eq s (e ∷ es) =
    let (l, p, n) = missing-map-value s (required e) in
    rw (requires-required, p) (ground (arith, n, check_members-eq s es))

-- Whatever a member requires is a member.
abbrev pub IsClosed : List BuildTarget → Type 0
IsClosed s =
    (e t : BuildTarget)
    → contains s e ≡ true
    → contains (requires e) (value t) ≡ true
    → contains s t ≡ true

IsClosed-of_complete : (s : List BuildTarget) → complete s s ≡ true → IsClosed s
unfolding complete
IsClosed-of_complete s h e t m r =
    all_contains (contains s) (required e) t (all_contains _ s e h m)
      (rw (← contains-map-value, ← requires-required) r)

complete_of_IsClosed : (s : List BuildTarget) → IsClosed s → complete s s ≡ true
unfolding complete
complete_of_IsClosed s h = all_of_contains _ s (λ e m.
    all_of_contains (contains s) (required e)
      (λ t r. h e t m (rw (requires-required, contains-map-value) r)))

-- A set passes exactly when whatever a member requires is a member; any other set is refused with
-- a `ValueError`.
pub check_requirements_iff :
    (s : List BuildTarget)
    → ((check_requirements s ≡ ok tt) ↔ IsClosed s)
      × ((check_requirements s ≡ err value_error) ↔ (¬ IsClosed s))
unfolding check_requirements
check_requirements_iff s = elim (Bool-cases (complete s s)) [
  | inl holds ↦
      rw (check_members-eq, holds)
        (
          (λ _. IsClosed-of_complete s holds, λ _. refl),
          (λ h. cc, λ h. absurd (h (IsClosed-of_complete s holds))),
        )
  | inr fails ↦
      rw (check_members-eq, fails)
        (
          (λ h. cc, λ h. cc (complete_of_IsClosed s h)),
          (λ _ h. cc (complete_of_IsClosed s h), λ _. refl),
        )
]

-- No value needs stripping, and none has a comma.
strip-value : (t : BuildTarget) → (strip (value t) ≡ value t) × (has_char b',' (value t) ≡ false)
unfolding strip value has_char
strip-value base_build = (refl, refl)
strip-value build = (refl, refl)
strip-value manifest = (refl, refl)
strip-value component_descriptor = (refl, refl)
strip-value tests = (refl, refl)
strip-value publish = (refl, refl)
strip-value freeze_version = (refl, refl)
strip-value github_release = (refl, refl)

map_result-value :
    (ts : List BuildTarget) → map_result from_value (map strip (map value ts)) ≡ ok ts
unfolding map_result
map_result-value [] = refl
map_result-value (t ∷ ts) = rw ((strip-value t).0, from_value-value, map_result-value ts)

no_commas : (ts : List BuildTarget) → All (λ part. has_char (code ",") part ≡ false) (map value ts)
no_commas [] = tt
no_commas (t ∷ ts) = ((strip-value t).1, no_commas ts)

-- Reading the comma-separated values of one target or more is to check the set of these targets.
pub set_from_str-join :
    (t : BuildTarget) (ts : List BuildTarget)
    → set_from_str (join "," (map value (t ∷ ts)))
      ≡ (do check_requirements (to_set (t ∷ ts)); ok (to_set (t ∷ ts)))
unfolding set_from_str
set_from_str-join t ts =
    rw (split-join "," (value t) (map value ts) (no_commas (t ∷ ts)), map_result-value (t ∷ ts))

value-first_value :
    (r : String) (ts : List BuildTarget) (t : BuildTarget) → first_value r ts ≡ ok t → value t ≡ r
unfolding first_value
value-first_value r [] t h = cc
value-first_value r (u ∷ ts) t h = ground (arith, eq_of_beq (value u) r, value-first_value r ts t)

value-from_value : (r : String) (t : BuildTarget) → from_value r ≡ ok t → value t ≡ r
unfolding from_value
value-from_value r t h = value-first_value r members t h

map-value-map_result :
    (rs : List String) (ts : List BuildTarget)
    → map_result from_value rs ≡ ok ts
    → rs ≡ map value ts
unfolding map_result
map-value-map_result [] ts h = ground arith
map-value-map_result (r ∷ rs) ts h =
    let (t, p, h') = >>=-ok (from_value r) _ h in
    let (us, q, e) = >>=-ok (map_result from_value rs) _ h' in
    cc (value-from_value r t p, map-value-map_result rs us q, e)

-- An accepted text names exactly the members of the set, after stripping, and the set is closed.
pub set_from_str_members :
    (text : String) (s : List BuildTarget)
    → set_from_str text ≡ ok s
    → IsClosed s
      × ((t : BuildTarget) → contains s t ≡ contains (map strip (split b',' text)) (value t))
unfolding set_from_str
set_from_str_members text s h =
    let (found, p, h') = >>=-ok (map_result from_value (map strip (split b',' text))) _ h in
    let (u, q, e) = >>=-ok (check_requirements (to_set found)) _ h' in
    let named : to_set found ≡ s = cc e in
    (
      rw (← named) ((check_requirements_iff (to_set found)).0.0 q),
      λ t. rw (← named) (
          contains-to_set found t
          ∙ sym (contains-map-value found t)
          ∙ ap (λ rs. contains rs (value t)) (sym (map-value-map_result _ found p))),
    )
