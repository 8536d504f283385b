-- ===== src/Releases/Pages.antt =====
-- `enumerate_releases` and `enumerate_release_sets` of ci/glci/util.py, which go through a listing
-- page by page.
use mathlib.Core.List.{append-nil}
use gardenlinux.Prelude.{
  ℕ, zero, suc, ◌<◌, ◌≡◌, refl, sym, ap, subst, ◌∙◌, String, true, false, Option, none, some, List,
  [], ◌++◌, ◌==◌, if◌then◌else◌, string_eq, Bool-cases, inl, inr, ◌≤◌, is_nil, keep, keep-append,
  not, arith,
}
use gardenlinux.Prelude.Result.{
  Result, ok, err, attribute_error, ◌>>=◌, map_result, append_results, map_result-append,
}
use gardenlinux.Model.Manifests.{OnlineReleaseManifest, OnlineReleaseManifestSet}
use gardenlinux.Store.{Store, truthy, IsProgressing}
use gardenlinux.Releases.{release_manifest, release_manifest_set}

-- An attribute of `None` is asked for.
abbrev present {ℓ} : {A : Type ℓ} → Option A → Result A
present none = err attribute_error
present (some a) = ok a

abbrev after_page {ℓ} :
    {A : Type ℓ} → Result (List A) → Option (Result (List A)) → Option (Result (List A))
after_page r none = none
after_page r (some t) = some (append_results r t)

module _ (S : Store) (s : S.State) (bucket prefix : String) where
  -- The loop over the pages, with what is yielded of the keys of one page. `none` says that the
  -- given number of pages was not enough.
  pub pages {ℓ} :
      {A : Type ℓ} → (List String → Result (List A)) → ℕ → Option String → Option (Result (List A))
  pages yielded zero token = none
  pages yielded (suc fuel) token =
      let page = S.list_objects s bucket prefix (truthy token) in
      let later = pages yielded fuel page.next_token in
      let rest = if page.is_truncated then later else some (ok []) in
      if is_nil page.keys then some (ok []) else after_page (yielded page.keys) rest

  -- `release_manifest(key)`; without `absent_ok` it is never `None`.
  pub fetch_manifest : String → Result OnlineReleaseManifest
  fetch_manifest key = do m ← release_manifest S s bucket key false; present m

  unfoldable pub enumerate_releases : ℕ → Option (Result (List OnlineReleaseManifest))
  unfolding pages fetch_manifest
  enumerate_releases fuel = pages (map_result fetch_manifest) fuel none

  pub fetch_manifest_set : String → Result OnlineReleaseManifestSet
  fetch_manifest_set key = do m ← release_manifest_set S s bucket key false; present m

  -- The keys of a page without directories.
  pub files_of : List String → List String
  files_of = keep (λ key. not (S.content_type s bucket key == "application/x-directory"))

  unfoldable pub enumerate_release_sets : ℕ → Option (Result (List OnlineReleaseManifestSet))
  unfolding pages fetch_manifest_set files_of
  enumerate_release_sets fuel =
      pages (λ keys. map_result fetch_manifest_set (files_of keys)) fuel none

  -- What the pages list from a token on, in so many requests.
  pub data Lists : ℕ → Option String → List String → Type 0 where
    empty :
        (token : Option String)
        → is_nil (S.list_objects s bucket prefix (truthy token)).keys ≡ true
        → Lists 1 token []
    last :
        (token : Option String)
        → (S.list_objects s bucket prefix (truthy token)).is_truncated ≡ false
        → is_nil (S.list_objects s bucket prefix (truthy token)).keys ≡ false
        → Lists 1 token (S.list_objects s bucket prefix (truthy token)).keys
    next :
        {n : ℕ} (token : Option String) {keys : List String}
        → (S.list_objects s bucket prefix (truthy token)).is_truncated ≡ true
        → is_nil (S.list_objects s bucket prefix (truthy token)).keys ≡ false
        → Lists n (S.list_objects s bucket prefix (truthy token)).next_token keys
        → Lists (suc n) token ((S.list_objects s bucket prefix (truthy token)).keys ++ keys)

  module _ {ℓ} {A : Type ℓ} (yielded : List String → Result (List A)) (nothing : yielded [] ≡ ok [])
      (both : (xs ys : List String)
        → append_results (yielded xs) (yielded ys) ≡ yielded (xs ++ ys)) where
    pages-Lists :
        (fuel : ℕ) {n : ℕ} {token : Option String} {keys : List String}
        → Lists n token keys
        → n ≤ fuel
        → pages yielded fuel token ≡ some (yielded keys)
    unfolding pages
    pages-Lists zero (empty token e) h = absurd (omega arith)
    pages-Lists zero (last token t e) h = absurd (omega arith)
    pages-Lists zero (next token t e l) h = absurd (omega arith)
    pages-Lists (suc fuel) (empty token e) h = rw e (ap some (sym nothing))
    pages-Lists (suc fuel) (last token t e) h =
        rw (e, t)
          (ap some (
            ap (append_results (yielded _)) (sym nothing)
            ∙ (both _ [] ∙ ap yielded (append-nil _))))
    pages-Lists (suc fuel) (next token t e l) h =
        rw (e, t, pages-Lists fuel l (omega arith)) (ap some (both _ _))

  -- A listing that moves on is read in as many requests as the rank of its start says.
  Lists-total :
      (rank : S.State → Option String → ℕ) (fuel : ℕ) (token : Option String)
      → IsProgressing S bucket prefix rank
      → rank s (truthy token) < fuel
      → (n : ℕ) × (keys : List String) × Lists n token keys × (n ≤ fuel)
  Lists-total rank zero token h r = absurd (omega arith)
  Lists-total rank (suc fuel) token h r =
      let page = S.list_objects s bucket prefix (truthy token) in
      elim (Bool-cases (is_nil page.keys)) [
        | inl nothing ↦ (1, [], empty token nothing, omega arith)
        | inr something ↦ elim (Bool-cases page.is_truncated) [
          | inr whole ↦ (1, page.keys, last token whole something, omega arith)
          | inl cut ↦
              let (t, e) = h.goes_on s (truthy token) cut in
              let lower = h.lower s (truthy token) t e in
              let (n, keys, l, k) =
                Lists-total rank fuel page.next_token h
                  (subst (λ o. rank s o < fuel) (sym e) (omega arith)) in
              (suc n, page.keys ++ keys, next token cut something l, omega arith)
        ]
      ]

  -- Both enumerations read the manifests of all listed keys, in order and up to the first that
  -- raises, given as many requests as the listing has pages; the second leaves out directories.
  pub enumerate_Lists :
      (n fuel : ℕ) (keys : List String)
      → Lists n none keys
      → n ≤ fuel
      → (enumerate_releases fuel ≡ some (map_result fetch_manifest keys))
        × (enumerate_release_sets fuel ≡ some (map_result fetch_manifest_set (files_of keys)))
  unfolding enumerate_releases enumerate_release_sets
  enumerate_Lists n fuel keys l h = (
    pages-Lists (map_result fetch_manifest) (unfold map_result in refl)
        (map_result-append fetch_manifest) fuel l h,
    pages-Lists (λ ks. map_result fetch_manifest_set (files_of ks)) (unfold map_result keep in refl)
        (λ xs ys.
          map_result-append fetch_manifest_set (files_of xs) (files_of ys)
          ∙ ap (map_result fetch_manifest_set) (keep-append _ xs ys))
        fuel l h,
  )

  -- If the listing moves on, both enumerations come to an end, and see all that it lists.
  pub enumerate_total :
      (rank : S.State → Option String → ℕ) (fuel : ℕ)
      → IsProgressing S bucket prefix rank
      → rank s none < fuel
      → (n : ℕ) × (keys : List String) × Lists n none keys
        × (enumerate_releases fuel ≡ some (map_result fetch_manifest keys))
        × (enumerate_release_sets fuel ≡ some (map_result fetch_manifest_set (files_of keys)))
  enumerate_total rank fuel h r =
      let (n, keys, l, k) = Lists-total rank fuel none h r in
      let (a, b) = enumerate_Lists n fuel keys l k in (n, keys, l, a, b)
