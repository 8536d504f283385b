-- ===== src/Clean/Orphans.antt =====
-- The objects that `clean_orphaned_objects` deletes and spares, and the end of its loop.
use gardenlinux.Prelude.{
  ℕ, zero, suc, ◌<◌, ◌≡◌, ◌≤◌, ◌≢◌, sym, ap, subst, ◌∙◌, ◌⊎◌, inl, inr, String, Bool, true, false,
  ◌&&◌, ◌||◌, not, Option, none, some, List, ◌==◌, if◌then◌else◌, string_eq, Bool-cases,
  Option-cases, beq_refl, eq_of_beq, contains, to_set, difference, is_nil, is_nil-contains,
  contains-to_set, contains-difference, arith,
}
use gardenlinux.Prelude.Result.{err, client_error}
use gardenlinux.Model.Manifests.{ReleaseFile, OnlineReleaseManifest, OnlineReleaseManifestSet}
use gardenlinux.Store.{Store, truthy, IsLawful, IsProgressing}
use gardenlinux.Clean.{referenced_keys, clean_page, clean_orphans, clean_orphaned_objects}
use gardenlinux.Clean.Referenced.{IsReferenced, contains-referenced_keys}

module _ (S : Store) (bucket prefix : String) (referenced : List String) (dry_run : Bool)
    (L : IsLawful S) where
  open S use {State}

  -- A key that the loop sees on one of its pages.
  pub data Sees : Option String → State → String → Type 0 where
    on_page :
        (token : Option String) (s : State) (k : String)
        → contains (S.list_objects s bucket prefix (truthy token)).keys k ≡ true
        → Sees token s k
    on_later :
        (token : Option String) (s : State) (t k : String)
        → is_nil (S.list_objects s bucket prefix (truthy token)).keys ≡ false
        → truthy (S.list_objects s bucket prefix (truthy token)).next_token ≡ some t
        → Sees
            (S.list_objects s bucket prefix (truthy token)).next_token
            (clean_page S bucket prefix referenced dry_run
              (S.list_objects s bucket prefix (truthy token)).keys
              s)
            k
        → Sees token s k

  download-clean_page :
      (keys : List String) (s : State) (b k : String)
      → S.download (clean_page S bucket prefix referenced dry_run keys s) b k ≡ (
          if not dry_run && (b == bucket && (contains keys k && not (contains referenced k)))
          then err (client_error "404")
          else S.download s b k)
  unfolding clean_page
  download-clean_page keys s b k = ground (
    arith,
    L.download-delete_objects s bucket (difference (to_set keys) referenced) b k,
    contains-difference (to_set keys) referenced k,
    contains-to_set keys k,
    is_nil-contains (difference (to_set keys) referenced) k,
  )

  -- One round of the loop.
  clean_orphans-step :
      (fuel : ℕ) (token : Option String) (s t : State)
      → clean_orphans S bucket prefix referenced dry_run (suc fuel) token s ≡ some t
      → let page = S.list_objects s bucket prefix (truthy token) in
        let u = clean_page S bucket prefix referenced dry_run page.keys s in
        ((is_nil page.keys ≡ true) × (s ≡ t))
        ⊎ ((is_nil page.keys ≡ false) × (truthy page.next_token ≡ none) × (u ≡ t))
        ⊎ ((is_nil page.keys ≡ false)
            × (clean_orphans S bucket prefix referenced dry_run fuel page.next_token u ≡ some t))
  unfolding clean_orphans
  clean_orphans-step fuel token s t e =
      let page = S.list_objects s bucket prefix (truthy token) in
      elim (Bool-cases (is_nil page.keys)) [
        | inl nothing ↦ inl (nothing, ground (arith, nothing))
        | inr something ↦ elim (Option-cases (truthy page.next_token)) [
          | inl last ↦ inr (inl (something, last, ground (arith, something, last)))
          | inr (next, more) ↦ inr (inr (something, ground (arith, something, more)))
        ]
      ]

  -- What is gone stays gone.
  clean_orphans-gone :
      (fuel : ℕ) (token : Option String) (s t : State) (b k : String)
      → clean_orphans S bucket prefix referenced dry_run fuel token s ≡ some t
      → S.download s b k ≡ err (client_error "404")
      → S.download t b k ≡ err (client_error "404")
  unfolding clean_orphans
  clean_orphans-gone zero token s t b k e h = cc
  clean_orphans-gone (suc fuel) token s t b k e h =
      let page = S.list_objects s bucket prefix (truthy token) in
      let gone : S.download (clean_page S bucket prefix referenced dry_run page.keys s) b k
          ≡ err (client_error "404") =
        download-clean_page page.keys s b k ∙ ground (arith, h) in
      elim (clean_orphans-step fuel token s t e) [
        | inl (_, same) ↦ subst (λ u. S.download u b k ≡ err (client_error "404")) same h
        | inr (inl (_, _, same)) ↦
            subst (λ u. S.download u b k ≡ err (client_error "404")) same gone
        | inr (inr (_, e')) ↦ clean_orphans-gone fuel page.next_token _ t b k e' gone
      ]

  -- An object outside the bucket, one that is referred to, and in a dry run any, is as before.
  clean_orphans-keeps :
      (fuel : ℕ) (token : Option String) (s t : State) (b k : String)
      → clean_orphans S bucket prefix referenced dry_run fuel token s ≡ some t
      → (dry_run || (not (b == bucket) || contains referenced k)) ≡ true
      → S.download t b k ≡ S.download s b k
  unfolding clean_orphans
  clean_orphans-keeps zero token s t b k e h = cc
  clean_orphans-keeps (suc fuel) token s t b k e h =
      let page = S.list_objects s bucket prefix (truthy token) in
      let kept : S.download (clean_page S bucket prefix referenced dry_run page.keys s) b k
          ≡ S.download s b k =
        download-clean_page page.keys s b k ∙ ground arith in
      elim (clean_orphans-step fuel token s t e) [
        | inl (_, same) ↦ ap (λ u. S.download u b k) (sym same)
        | inr (inl (_, _, same)) ↦ ap (λ u. S.download u b k) (sym same) ∙ kept
        | inr (inr (_, e')) ↦ clean_orphans-keeps fuel page.next_token _ t b k e' h ∙ kept
      ]

  clean_orphans-Sees :
      (fuel : ℕ) (token : Option String) (s t : State) (k : String)
      → clean_orphans S bucket prefix referenced dry_run fuel token s ≡ some t
      → Sees token s k
      → dry_run ≡ false
      → contains referenced k ≡ false
      → S.download t bucket k ≡ err (client_error "404")
  unfolding clean_orphans
  clean_orphans-Sees zero token s t k e v live loose = cc
  clean_orphans-Sees (suc fuel) token s t k e (on_page _ _ _ m) live loose =
      let page = S.list_objects s bucket prefix (truthy token) in
      let gone : S.download (clean_page S bucket prefix referenced dry_run page.keys s) bucket k
          ≡ err (client_error "404") =
        download-clean_page page.keys s bucket k ∙ ground (arith, beq_refl bucket, m) in
      elim (clean_orphans-step fuel token s t e) [
        | inl (nothing, _) ↦ absurd (ground (arith, is_nil-contains page.keys k nothing, m))
        | inr (inl (_, _, same)) ↦
            subst (λ u. S.download u bucket k ≡ err (client_error "404")) same gone
        | inr (inr (_, e')) ↦ clean_orphans-gone fuel page.next_token _ t bucket k e' gone
      ]
  clean_orphans-Sees (suc fuel) token s t k e (on_later _ _ t' _ something more v) live loose =
      let page = S.list_objects s bucket prefix (truthy token) in
      elim (clean_orphans-step fuel token s t e) [
        | inl (nothing, _) ↦ cc (nothing, something)
        | inr (inl (_, last, _)) ↦ cc (last, more)
        | inr (inr (_, e')) ↦ clean_orphans-Sees fuel page.next_token _ t k e' v live loose
      ]

  -- Cleaning a page leaves no more behind a token.
  clean_page-rank :
      (rank : State → Option String → ℕ) (keys : List String) (s : State) (token : Option String)
      → IsProgressing S bucket prefix rank
      → rank (clean_page S bucket prefix referenced dry_run keys s) token ≤ rank s token
  unfolding clean_page
  clean_page-rank rank keys s token h =
      let loose = difference (to_set keys) referenced in
      elim (Bool-cases dry_run) [
        | inl dry ↦ rw dry (omega arith)
        | inr live ↦ elim (Bool-cases (is_nil loose)) [
          | inl nothing ↦ rw (live, nothing) (omega arith)
          | inr something ↦ rw (live, something) (h.deletes s loose token)
        ]
      ]

  clean_orphans-total :
      (rank : State → Option String → ℕ) (fuel : ℕ) (token : Option String) (s : State)
      → IsProgressing S bucket prefix rank
      → rank s (truthy token) < fuel
      → (t : State) × (clean_orphans S bucket prefix referenced dry_run fuel token s ≡ some t)
  unfolding clean_orphans
  clean_orphans-total rank zero token s h r = absurd (omega arith)
  clean_orphans-total rank (suc fuel) token s h r =
      let page = S.list_objects s bucket prefix (truthy token) in
      let u = clean_page S bucket prefix referenced dry_run page.keys s in
      elim (Bool-cases (is_nil page.keys)) [
        | inl nothing ↦ (s, rw nothing)
        | inr something ↦ elim (Option-cases (truthy page.next_token)) [
          | inl last ↦ (u, rw (something, last))
          | inr (next, more) ↦
              let lower = h.lower s (truthy token) next more in
              let kept = clean_page-rank rank page.keys s (some next) h in
              let (t, e) =
                clean_orphans-total rank fuel page.next_token u h
                  (subst (λ o. rank u o < fuel) (sym more) (omega arith)) in
              (t, rw (something, more, e))
        ]
      ]

module _ (S : Store) (bucket prefix : String) (sets : List OnlineReleaseManifestSet)
    (singles : List OnlineReleaseManifest) (dry_run : Bool) (fuel : ℕ) (L : IsLawful S) where
  open S use {State}

  -- The objects that the clean-up has to leave alone.
  pub data IsSafe : String → String → Type 0 where
    dry : (b k : String) → dry_run ≡ true → IsSafe b k
    elsewhere : (b k : String) → b ≢ bucket → IsSafe b k
    referred : (o : ReleaseFile) → IsReferenced sets singles o → IsSafe o.s3_bucket_name o.s3_key

  -- A clean-up of a lawful store that comes to its end leaves every object of a dry run, every
  -- object of another bucket and every object that is among the paths of an enumerated manifest,
  -- or among the paths or the logs of an enumerated manifest set, as it was.
  pub clean_orphaned_objects_keeps :
      (s t : State) (b k : String)
      → clean_orphaned_objects S bucket prefix sets singles dry_run fuel s ≡ some t
      → IsSafe b k
      → S.download t b k ≡ S.download s b k
  unfolding clean_orphaned_objects
  clean_orphaned_objects_keeps s t b k e safe =
      clean_orphans-keeps S bucket prefix (referenced_keys bucket sets singles) dry_run L fuel none
        s t b k e (spared safe)
    where
      spared :
          {b k : String}
          → IsSafe b k
          → (dry_run || (not (b == bucket) || contains (referenced_keys bucket sets singles) k))
            ≡ true
      spared (dry b k h) = ground (arith, h)
      spared (elsewhere b k h) = ground (arith, h, string_eq.equals_iff b bucket)
      spared (referred o r) = elim (Bool-cases (o.s3_bucket_name == bucket)) [
        | inl same ↦ ground (
          arith,
          contains-referenced_keys bucket sets singles o r (eq_of_beq o.s3_bucket_name bucket same),
        )
        | inr other ↦ ground (arith, other)
      ]

  -- After a clean-up of a lawful store that comes to its end and is no dry run, a key that it sees
  -- on a page and that is not among the referenced keys of the bucket is gone.
  pub clean_orphaned_objects_gone :
      (s t : State) (k : String)
      → clean_orphaned_objects S bucket prefix sets singles dry_run fuel s ≡ some t
      → Sees S bucket prefix (referenced_keys bucket sets singles) dry_run L none s k
      → dry_run ≡ false
      → contains (referenced_keys bucket sets singles) k ≡ false
      → S.download t bucket k ≡ err (client_error "404")
  unfolding clean_orphaned_objects
  clean_orphaned_objects_gone s t k e v live loose =
      clean_orphans-Sees S bucket prefix (referenced_keys bucket sets singles) dry_run L fuel none s
        t k e v live loose

  -- If the listing moves on, deleting leaves no more behind a token, and more pages are allowed than the rank of its
  -- start says, the clean-up of a lawful store comes to an end.
  pub clean_orphaned_objects_total :
      (rank : State → Option String → ℕ) (s : State)
      → IsProgressing S bucket prefix rank
      → rank s none < fuel
      → (t : State) × (clean_orphaned_objects S bucket prefix sets singles dry_run fuel s ≡ some t)
  unfolding clean_orphaned_objects
  clean_orphaned_objects_total rank s h r =
      clean_orphans-total S bucket prefix (referenced_keys bucket sets singles) dry_run L rank fuel
        none s h r
