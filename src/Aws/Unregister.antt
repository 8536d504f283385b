-- ===== src/Aws/Unregister.antt =====
-- The threads of `unregister_images_by_name` of ci/glci/aws.py. A task is submitted for each image
-- that is found, and reads the variables of the loop when it runs: the region for its client first,
-- and then the image that it asks to be deregistered there.
use gardenlinux.Prelude.{
  ℕ, zero, suc, ◌≡◌, refl, sym, ap, subst, ◌∙◌, ◌⊎◌, inl, inr, String, Option, none, some, List, [],
  ◌∷◌, ◌++◌, ◌≢◌, ◌==◌, ◌||◌, string_eq, true, contains, Bool-cases, eq_of_beq, arith,
}

-- An image: its region and its identifier.
abbrev pub Image : Type 0
Image = String × String

-- The loop and its pool: what is still to be found, what the variables hold, the tasks that have
-- not begun, the regions of the clients that tasks have made, and what was asked to be deregistered,
-- the last one first.
pub record Pool : Type 0 where
  pub left : List Image
  pub current : Option Image
  pub tasks : ℕ
  pub clients : List String
  pub removed : List Image

unfoldable pub started : List Image → Pool
started images = record { left = images; current = none; tasks = 0; clients = []; removed = [] }

-- A step of the loop or of one of the threads, in any order.
pub data Step (before : Pool) (after : Pool) : Type 0 where
  submit :
      (image : Image) (rest : List Image)
      → before.left ≡ image ∷ rest
      → after ≡ record {
        left = rest;
        current = some image;
        tasks = suc before.tasks;
        clients = before.clients;
        removed = before.removed;
      }
      → Step before after
  make_client :
      (image : Image) (tasks : ℕ)
      → before.current ≡ some image
      → before.tasks ≡ suc tasks
      → after ≡ record before { tasks = tasks; clients = image.0 ∷ before.clients }
      → Step before after
  deregister :
      (image : Image) (region : String) (first rest : List String)
      → before.current ≡ some image
      → before.clients ≡ first ++ region ∷ rest
      → after
        ≡ record before { clients = first ++ rest; removed = (region, image.1) ∷ before.removed }
      → Step before after

pub data Reach (first : Pool) : Pool → Type 0 where
  here : Reach first first
  next : {pool pool' : Pool} → Reach first pool → Step pool pool' → Reach first pool'

-- `concurrent.futures.wait` has returned.
abbrev pub IsDone : Pool → Type 0
IsDone pool = (pool.left ≡ []) × (pool.tasks ≡ 0) × (pool.clients ≡ [])

abbrev pub last_or : Option Image → List Image → Option Image
last_or found [] = found
last_or found (image ∷ images) = last_or (some image) images

abbrev pub In : Image → List Image → Type 0
In image [] = ⊥
In image (x ∷ images) = (x ≡ image) ⊎ In image images

-- A task that has not begun, or one whose client is for the region of the image, will ask for it, or
-- one has asked for it.
abbrev IsAskedFor : Image → Pool → Type 0
IsAskedFor image pool =
    (pool.tasks ≢ 0) ⊎ ((contains pool.clients image.0 ≡ true) ⊎ In image pool.removed)

-- What holds between the steps.
record Inv (images : List Image) (pool : Pool) : Type 0 where
  same_last : last_or pool.current pool.left ≡ last_or none images
  last_removed : (image : Image) → pool.current ≡ some image → IsAskedFor image pool

some_injective : {x y : Image} → some x ≡ some y → x ≡ y
some_injective e = ap (λ (o : Option Image). elim o [ none ↦ ("", "") | some z ↦ z ]) e

contains-between :
    (first rest : List String) (region r : String)
    → contains (first ++ region ∷ rest) r ≡ (region == r || contains (first ++ rest) r)
unfolding contains
contains-between [] rest region r = ground arith
contains-between (x ∷ first) rest region r = ground (arith, contains-between first rest region r)

-- A client that deregisters takes its region with it, and asks for the image there.
deregistered :
    (image : Image) (region : String) (first rest clients : List String) (removed : List Image)
    → clients ≡ first ++ region ∷ rest
    → (contains clients image.0 ≡ true) ⊎ In image removed
    → (contains (first ++ rest) image.0 ≡ true) ⊎ In image ((region, image.1) ∷ removed)
deregistered image region first rest clients removed e (inr there) = inr (inr there)
deregistered image region first rest clients removed e (inl m) =
    elim (Bool-cases (region == image.0)) [
      | inl same ↦ inr (inl (ap (λ r. (r, image.1)) (eq_of_beq region image.0 same)))
      | inr other ↦
          let m' =
            sym (ap (λ l. contains l image.0) e ∙ contains-between first rest region image.0) ∙ m in
          inl (rw other at m')
    ]

begun : (image : Image) (clients : List String) → contains (image.0 ∷ clients) image.0 ≡ true
unfolding contains
begun image clients = ground (arith, string_eq.equals_iff image.0 image.0)

Step-Inv :
    (images : List Image) (before after : Pool)
    → Step before after
    → Inv images before
    → Inv images after
Step-Inv images before after (submit image rest l e) inv = rw e (record {
  same_last = ap (last_or before.current) (sym l) ∙ inv.same_last;
  last_removed = λ x c. inl (λ k. absurd (ground arith));
})
Step-Inv images before after (make_client image tasks c t e) inv = rw e (record {
  same_last = inv.same_last;
  last_removed = λ x c'.
      let same = some_injective (sym c ∙ c') in
      inr (
        inl (
          subst (λ (y : Image). contains (image.0 ∷ before.clients) y.0 ≡ true) same
            (begun image before.clients)));
})
Step-Inv images before after (deregister image region first rest c l e) inv = rw e (record {
  same_last = inv.same_last;
  last_removed = λ x c'.
      let same = some_injective (sym c ∙ c') in
      elim (inv.last_removed x c') [
        | inl waiting ↦ inl waiting
        | inr asked ↦ inr (
            subst
              (λ (y : Image).
                (contains (first ++ rest) x.0 ≡ true) ⊎ In x ((region, y.1) ∷ before.removed))
              (sym same) (deregistered x region first rest before.clients before.removed l asked))
      ];
})

Reach-Inv : (images : List Image) (pool : Pool) → Reach (started images) pool → Inv images pool
unfolding started
Reach-Inv images pool here = record {
  same_last = refl;
  last_removed = λ image e. absurd (ground arith);
}
Reach-Inv images pool (next {pool = before} r s) =
    Step-Inv images before pool s (Reach-Inv images before r)

nothing_left :
    (image : Image) (pool : Pool)
    → pool.tasks ≡ 0
    → pool.clients ≡ []
    → IsAskedFor image pool
    → In image pool.removed
unfolding contains
nothing_left image pool idle none_there (inl waiting) = absurd (waiting idle)
nothing_left image pool idle none_there (inr (inl m)) = absurd (ground (arith, rw none_there at m))
nothing_left image pool idle none_there (inr (inr there)) = there

-- In whatever order the threads run, the last image that was found is deregistered.
pub Reach-last :
    (images : List Image) (pool : Pool) (image : Image)
    → Reach (started images) pool
    → IsDone pool
    → last_or none images ≡ some image
    → In image pool.removed
Reach-last images pool image r (nothing, idle, none_there) last =
    let inv = Reach-Inv images pool r in
    nothing_left image pool idle none_there
      (inv.last_removed image (ap (last_or pool.current) (sym nothing) ∙ (inv.same_last ∙ last)))

submit_each :
    (l : List Image) (first : Pool) (c : Option Image) (n : ℕ) (r : List Image)
    → Reach first (record { left = l; current = c; tasks = n; clients = []; removed = r })
    → (m : ℕ) × Reach first
        (record { left = []; current = last_or c l; tasks = m; clients = []; removed = r })
submit_each [] first c n r h = (n, h)
submit_each (x ∷ l) first c n r h =
    submit_each l first (some x) (suc n) r (next h (submit x l refl refl))

only_one :
    (x : Image) (r : List Image)
    → ((y : Image) → In y r → y ≡ x)
    → (y : Image) → In y (x ∷ r)
    → y ≡ x
only_one x r only y (inl e) = sym e
only_one x r only y (inr m) = only y m

run_each :
    (m : ℕ) (first : Pool) (x : Image) (r : List Image)
    → Reach first (record { left = []; current = some x; tasks = m; clients = []; removed = r })
    → ((y : Image) → In y r → y ≡ x)
    → (pool : Pool) × Reach first pool × IsDone pool × ((y : Image) → In y pool.removed → y ≡ x)
run_each zero first x r h only = (_, h, (refl, refl, refl), only)
run_each (suc m) first x r h only =
    let begins = next h (make_client x m refl refl refl) in
    run_each m first x (x ∷ r) (next begins (deregister x x.0 [] [] refl refl refl))
      (only_one x r only)

-- There is an order in which the threads run that deregisters no image but the last one that was
-- found, however many were found.
pub started_late :
    (images : List Image) (last : Image)
    → last_or none images ≡ some last
    → (pool : Pool) × Reach (started images) pool
      × IsDone pool
      × ((image : Image) → In image pool.removed → image ≡ last)
unfolding started
started_late images last e =
    let (m, r) = submit_each images (started images) none 0 [] here in
    run_each m (started images) last []
      (subst
        (λ c.
          Reach (started images)
            (record { left = []; current = c; tasks = m; clients = []; removed = [] }))
        e r)
      (λ y h. absurd h)
