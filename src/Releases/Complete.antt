-- ===== src/Releases/Complete.antt =====
-- What `find_releases` returns for a flavour set, and what its length says.
use gardenlinux.Prelude.{
  ℕ, ◌≤◌, ◌≡◌, sym, ap, subst, ◌∙◌, ◌⊎◌, inl, inr, String, Option, none, some, List, [], ◌∷◌,
  string_eq, Option-cases, length, to_set, NoDup, length-to_set, NoDup-of_length, contains-to_set,
  In, In-cons, here, there, contains-In, In-contains, arith,
}
use gardenlinux.Prelude.Result.{ok, >>=-ok}
use gardenlinux.Model.Features.{FeatureDescriptor}
use gardenlinux.Model.Flavours.{Flavour, FlavourSet, flavour_eq, flavours}
use gardenlinux.Model.Manifests.{ReleaseIdentifier, identifier_eq, OnlineReleaseManifest}
use gardenlinux.Store.{Store}
use gardenlinux.Releases.{find_release, identifier_of, found_first, find_each, find_releases}

found_first-In :
    {m : OnlineReleaseManifest} (o : Option OnlineReleaseManifest) (ms : List OnlineReleaseManifest)
    → In m (found_first o ms)
    → (o ≡ some m) ⊎ In m ms
found_first-In none ms h = inr h
found_first-In (some k) ms h = elim (In-cons h) [ inl e ↦ inl (ap some e) | inr k ↦ inr k ]

In-found_first :
    {m : OnlineReleaseManifest} (o : Option OnlineReleaseManifest) (ms : List OnlineReleaseManifest)
    → In m ms
    → In m (found_first o ms)
In-found_first none ms h = h
In-found_first (some k) ms h = there h

module _ (S : Store) (features : List FeatureDescriptor) (depth : ℕ) where
  open S use {State}

  module _ (s : State) (bucket : String) (identifier : Flavour → ReleaseIdentifier) where
    -- The release of a flavour is there.
    unfoldable pub IsReleased : Flavour → OnlineReleaseManifest → Type 0
    IsReleased f m = find_release S features depth s bucket (identifier f) ≡ ok (some m)

    find_each-cons :
        (f : Flavour) (fs : List Flavour) (ms : List OnlineReleaseManifest)
        → find_each S features depth s bucket identifier (f ∷ fs) ≡ ok ms
        → (o : Option OnlineReleaseManifest) × (rest : List OnlineReleaseManifest) × (find_release S
              features depth s bucket
              (identifier f)
            ≡ ok o)
          × (find_each S features depth s bucket identifier fs ≡ ok rest)
          × (ms ≡ found_first o rest)
    unfolding find_each
    find_each-cons f fs ms e =
        let (o, p, e₁) = >>=-ok (find_release S features depth s bucket (identifier f)) _ e in
        let (rest, q, e₂) = >>=-ok (find_each S features depth s bucket identifier fs) _ e₁ in
        (o, rest, p, q, cc e₂)

    find_each-In :
        (fs : List Flavour) (ms : List OnlineReleaseManifest) {m : OnlineReleaseManifest}
        → find_each S features depth s bucket identifier fs ≡ ok ms
        → In m ms
        → (f : Flavour) × In f fs × IsReleased f m
    unfolding find_each IsReleased
    find_each-In [] ms {m} e h = let none_left : ms ≡ [] = cc in elim (subst (In m) none_left h) [ ]
    find_each-In (f ∷ fs) ms {m} e h =
        let (o, rest, p, q, split) = find_each-cons f fs ms e in
        elim (found_first-In o rest (subst (In m) split h)) [
          | inl same ↦ (f, here, p ∙ ap ok same)
          | inr later ↦ let (g, k, r) = find_each-In fs rest q later in (g, there k, r)
        ]

    length-find_each :
        (fs : List Flavour) (ms : List OnlineReleaseManifest)
        → find_each S features depth s bucket identifier fs ≡ ok ms
        → length ms ≤ length fs
    unfolding find_each
    length-find_each [] ms e = let none_left : ms ≡ [] = cc in omega (arith, ap length none_left)
    length-find_each (f ∷ fs) ms e =
        let (o, rest, p, q, split) = find_each-cons f fs ms e in
        ground (arith, length-find_each fs rest q, ap length split)

    -- With as many releases as flavours, each flavour has its own.
    find_each_complete :
        (fs : List Flavour) (ms : List OnlineReleaseManifest) {f : Flavour}
        → find_each S features depth s bucket identifier fs ≡ ok ms
        → length fs ≤ length ms
        → In f fs
        → (m : OnlineReleaseManifest) × In m ms × IsReleased f m
    unfolding IsReleased
    find_each_complete [] ms e n h = elim h [ ]
    find_each_complete (g ∷ fs) ms {f} e n h =
        let (o, rest, p, q, split) = find_each-cons g fs ms e in
        let shorter = length-find_each fs rest q in
        elim (Option-cases o) [
          | inl missed ↦ absurd (ground (arith, ap length split))
          | inr (m, found) ↦
              let split' : ms ≡ m ∷ rest = split ∙ ap (λ x. found_first x rest) found in
              elim (In-cons h) [
                | inl same ↦ (
                  m,
                  subst (In m) (sym split') here,
                  ap (λ x. find_release S features depth s bucket (identifier x)) (sym same)
                      ∙ (p ∙ ap ok found),
                )
                | inr k ↦
                    let (m', i, r) =
                      find_each_complete fs rest q (omega (arith, ap length split')) k in
                    (m', subst (In m') (sym split') (there i), r)
              ]
        ]

  module _ (s : State) (bucket : String) (flavour_set : FlavourSet) (committish version : String)
      (epoch : ℕ) (fs : List Flavour) (ms : List OnlineReleaseManifest)
      (declared : flavours features depth flavour_set ≡ ok fs)
      (found : find_releases S features depth s bucket flavour_set committish version epoch
        ≡ ok ms) where
    searched :
        find_each S features depth s bucket (identifier_of committish version epoch) (to_set fs)
        ≡ ok ms
    unfolding find_releases
    searched = rw declared at found

    -- A search that returns has only releases of flavours of the set, and no more of them than the
    -- set has flavours.
    pub find_releases_sound :
        ((m : OnlineReleaseManifest)
          → In m ms
          → (f : Flavour) × In f fs
            × IsReleased s bucket (identifier_of committish version epoch) f m)
        × (length ms ≤ length fs)
    find_releases_sound = (
      λ m h.
          let (f, k, r) = find_each-In s bucket _ (to_set fs) ms searched h in
          (f, In-contains fs (sym (contains-to_set fs f) ∙ contains-In (to_set fs) k), r),
      omega (
        arith,
        length-find_each s bucket (identifier_of committish version epoch) (to_set fs) ms searched,
        length-to_set fs,
      ),
    )

    -- If a search returns as many releases as the set has flavours, the set repeats no flavour and
    -- each of its flavours has its release among those found.
    pub find_releases_complete :
        length ms ≡ length fs
        → NoDup fs
          × ((f : Flavour)
              → In f fs
              → (m : OnlineReleaseManifest) × In m ms
                × IsReleased s bucket (identifier_of committish version epoch) f m)
    find_releases_complete n =
        let within =
          length-find_each s bucket (identifier_of committish version epoch) (to_set fs) ms
            searched in
        (
          NoDup-of_length fs (omega (arith, within)),
          λ f h.
              find_each_complete s bucket _ (to_set fs) ms searched
                (omega (arith, length-to_set fs))
                (In-contains (to_set fs) (contains-to_set fs f ∙ contains-In fs h)),
        )
