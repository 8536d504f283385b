-- ===== src/Tests/Paged.antt =====
-- The store in memory with a listing of one key on each page, in the order of the keys. The token to
-- go on from is the last key.
use gardenlinux.Prelude.{
  ℕ, ◌≡◌, ◌≤◌, ◌<◌, refl, ap, sym, ◌∙◌, String, Bool, true, false, ◌&&◌, not, Option, none, some,
  List, [], ◌∷◌, ◌==◌, string_eq, contains, keep, to_set, map, length, codes, sorted, Bool-cases,
  inl, inr, arith, contains-keep, contains-to_set, text_leb, contains-sorted, text_leb_total,
  text_leb_trans, eq_of_beq,
}
use gardenlinux.Store.{Store, Page, truthy, IsLawful, IsProgressing}
use gardenlinux.Tests.Memory.{
  Entry, memory, memory-IsLawful, delete_each, read_from, is_there, starts_with,
}

abbrev is_after : Option String → String → Bool
is_after none k = true
is_after (some t) k = not (text_leb (codes k) (codes t))

abbrev is_listed : List Entry → String → String → String → Bool
is_listed s bucket prefix k =
    not (k == "") && (starts_with prefix k && is_there (read_from s bucket k))

abbrev all_keys : List Entry → List String
all_keys s = map (λ (e : Entry). e.key) s

-- The keys behind a token.
abbrev behind : List Entry → String → String → Option String → List String
behind s bucket prefix token =
    keep (λ k. is_listed s bucket prefix k && is_after token k) (all_keys s)

abbrev first_page : List String → Page
first_page [] = record { keys = []; is_truncated = false; next_token = none }
first_page (k ∷ []) = record { keys = k ∷ []; is_truncated = false; next_token = none }
first_page (k ∷ more ∷ ks) = record { keys = k ∷ []; is_truncated = true; next_token = some k }

abbrev pub paged : Store
paged = record memory {
  list_objects =
      λ s bucket prefix token. first_page (sorted codes (to_set (behind s bucket prefix token)));
}

pub paged-IsLawful : IsLawful paged
paged-IsLawful = record {
  download-upload = memory-IsLawful.download-upload;
  download-delete = memory-IsLawful.download-delete;
  download-delete_objects = memory-IsLawful.download-delete_objects;
  parse-dump = memory-IsLawful.parse-dump;
  parse-dump_set = memory-IsLawful.parse-dump_set;
}

abbrev pub left_behind : String → String → List Entry → Option String → ℕ
left_behind bucket prefix s token = length (behind s bucket prefix token)

length-keep_mono :
    (p q : String → Bool) (xs : List String)
    → ((x : String) → p x ≡ true → q x ≡ true)
    → length (keep p xs) ≤ length (keep q xs)
unfolding keep
length-keep_mono p q [] h = omega arith
length-keep_mono p q (x ∷ xs) h =
    let rest = length-keep_mono p q xs h in
    elim (Bool-cases (p x)) [
      | inl taken ↦ rw (taken, h x taken) (omega arith)
      | inr left_out ↦ elim (Bool-cases (q x)) [
        | inl more ↦ rw (left_out, more) (omega arith)
        | inr neither ↦ rw (left_out, neither) rest
      ]
    ]

length-keep_less :
    (p q : String → Bool) (xs : List String) (k : String)
    → ((x : String) → p x ≡ true → q x ≡ true)
    → p k ≡ false
    → q k ≡ true
    → contains xs k ≡ true
    → length (keep p xs) < length (keep q xs)
unfolding keep contains
length-keep_less p q [] k h out_k in_k m = cc
length-keep_less p q (x ∷ xs) k h out_k in_k m = elim (Bool-cases (x == k)) [
  | inl same ↦
      let here : x ≡ k = eq_of_beq x k same in
      let out : p x ≡ false = ap p here ∙ out_k in
      let within : q x ≡ true = ap q here ∙ in_k in
      let rest = length-keep_mono p q xs h in rw (out, within) (omega arith)
  | inr other ↦
      let rest = length-keep_less p q xs k h out_k in_k (rw other at m) in
      elim (Bool-cases (p x)) [
        | inl taken ↦ rw (taken, h x taken) (omega arith)
        | inr left_out ↦ elim (Bool-cases (q x)) [
          | inl more ↦ rw (left_out, more) (omega arith)
          | inr neither ↦ rw (left_out, neither) rest
        ]
      ]
]

-- The first key of a page is behind the token, and nothing is behind that key that is not behind the
-- token.
leb_refl : (k : String) → text_leb (codes k) (codes k) ≡ true
leb_refl k = elim (Bool-cases (text_leb (codes k) (codes k))) [
  | inl below ↦ below
  | inr other ↦ text_leb_total (codes k) (codes k) other
]

is_after_trans :
    (token : Option String) (k x : String)
    → is_after token k ≡ true
    → is_after (some k) x ≡ true
    → is_after token x ≡ true
is_after_trans none k x h j = refl
is_after_trans (some t) k x h j = elim (Bool-cases (text_leb (codes x) (codes t))) [
  | inr above ↦ rw above refl
  | inl below ↦
      let behind_t : text_leb (codes k) (codes t) ≡ false = ground (arith, h) in
      let t_below_k = text_leb_total (codes k) (codes t) behind_t in
      let x_below_k = text_leb_trans (codes x) (codes t) (codes k) below t_below_k in
      absurd (ground (arith, j, x_below_k))
]

behind-less :
    (s : List Entry) (bucket prefix : String) (token : Option String) (k : String)
    → contains (behind s bucket prefix token) k ≡ true
    → left_behind bucket prefix s (some k) < left_behind bucket prefix s token
behind-less s bucket prefix token k m =
    let listed = λ (x : String). is_listed s bucket prefix x in
    let both : (contains (all_keys s) k && (listed k && is_after token k)) ≡ true =
      sym (contains-keep (λ x. listed x && is_after token x) (all_keys s) k) ∙ m in
    length-keep_less (λ x. listed x && is_after (some k) x) (λ x. listed x && is_after token x)
      (all_keys s) k (λ x h. ground (arith, is_after_trans token k x, h, both))
      (ground (arith, leb_refl k)) (ground (arith, both)) (ground (arith, both))

sorted-behind :
    (s : List Entry) (bucket prefix : String) (token : Option String) (k : String)
    (ks : List String)
    → sorted codes (to_set (behind s bucket prefix token)) ≡ k ∷ ks
    → contains (behind s bucket prefix token) k ≡ true
unfolding contains
sorted-behind s bucket prefix token k ks e =
    let l = behind s bucket prefix token in
    sym (contains-sorted codes (to_set l) k ∙ contains-to_set l k)
    ∙ (ap (λ xs. contains xs k) e ∙ ground (arith, string_eq.equals_iff k k))

-- What a page that goes on says of the listing.
next_behind :
    (ks : List String) (t : String)
    → truthy (first_page ks).next_token ≡ some t
    → (more : List String) × (ks ≡ t ∷ more)
next_behind [] t h = cc
next_behind (k ∷ []) t h = cc
next_behind (k ∷ more ∷ ks) t h = elim (Bool-cases (k == "")) [
  | inl nothing ↦ absurd (ground (arith, rw nothing at h))
  | inr something ↦
      let same : k ≡ t = ground (arith, rw something at h) in
      (more ∷ ks, ap (λ x. x ∷ more ∷ ks) same)
]

goes_on_from :
    (ks : List String)
    → ((k : String) → contains ks k ≡ true → (k == "") ≡ false)
    → (first_page ks).is_truncated ≡ true
    → (t : String) × (truthy (first_page ks).next_token ≡ some t)
unfolding contains
goes_on_from [] h e = cc
goes_on_from (k ∷ []) h e = cc
goes_on_from (k ∷ more ∷ ks) h e =
    let there : (k == "") ≡ false = h k (ground (arith, string_eq.equals_iff k k)) in
    (k, rw there refl)

behind_named :
    (s : List Entry) (bucket prefix : String) (token : Option String) (k : String)
    → contains (sorted codes (to_set (behind s bucket prefix token))) k ≡ true
    → (k == "") ≡ false
behind_named s bucket prefix token k m =
    let l = behind s bucket prefix token in
    let listed = λ (x : String). is_listed s bucket prefix x in
    let m' = sym (contains-sorted codes (to_set l) k ∙ contains-to_set l k) ∙ m in
    let both : (contains (all_keys s) k && (listed k && is_after token k)) ≡ true =
      sym (contains-keep (λ x. listed x && is_after token x) (all_keys s) k) ∙ m' in
    ground (arith, both)

keep-delete_each :
    (p : String → Bool) (s : List Entry) (bucket : String) (ks : List String)
    → ((k : String) → contains ks k ≡ true → p k ≡ false)
    → keep p (all_keys (delete_each s bucket ks)) ≡ keep p (all_keys s)
unfolding keep contains
keep-delete_each p s bucket [] h = refl
keep-delete_each p s bucket (k ∷ ks) h =
    let gone : p k ≡ false = h k (ground (arith, string_eq.equals_iff k k)) in
    rw gone (keep-delete_each p s bucket ks (λ x m. h x (ground (arith, m))))

deleted-listed :
    (s : List Entry) (bucket prefix : String) (ks : List String) (k : String)
    → is_listed (delete_each s bucket ks) bucket prefix k
      ≡ (is_listed s bucket prefix k && not (contains ks k))
deleted-listed s bucket prefix ks k = elim (Bool-cases (contains ks k)) [
  | inl gone ↦
      rw (memory-IsLawful.download-delete_objects s bucket ks bucket k, gone)
        (ground (arith, string_eq.equals_iff bucket bucket))
  | inr kept ↦
      rw (memory-IsLawful.download-delete_objects s bucket ks bucket k, kept)
        (ground (arith, string_eq.equals_iff bucket bucket))
]

pub paged-IsProgressing :
    (bucket prefix : String) → IsProgressing paged bucket prefix (left_behind bucket prefix)
paged-IsProgressing bucket prefix = record {
  lower = λ s token t e.
      let (more, first) = next_behind (sorted codes (to_set (behind s bucket prefix token))) t e in
      behind-less s bucket prefix token t (sorted-behind s bucket prefix token t more first);
  goes_on = λ s token.
      goes_on_from (sorted codes (to_set (behind s bucket prefix token)))
        (behind_named s bucket prefix token);
  deletes = λ s keys token.
      let after =
        λ (x : String). is_listed (delete_each s bucket keys) bucket prefix x && is_after token x in
      rw
        (keep-delete_each after s bucket keys
          (λ k m. ground (arith, deleted-listed s bucket prefix keys k, m)))
        (length-keep_mono after (λ x. is_listed s bucket prefix x && is_after token x) (all_keys s)
          (λ x h. ground (arith, deleted-listed s bucket prefix keys x, h)));
}
