-- ===== src/Tekton/Latest.antt =====
-- The condition that `_run_status` takes.
use gardenlinux.Prelude.{
  ℕ, ◌≡◌, ◌≤◌, refl, true, some, List, [], ◌∷◌, sorted, IsSorted, sorted-IsSorted, text_leb, In,
  here, there, In-cons, In-sorted, sorted-In, inl, inr, All, arith, subst, sym,
}
use gardenlinux.Prelude.Result.{ok}
use gardenlinux.Tekton.{TknCondition, last_of, run_status}

abbrev time : TknCondition → List ℕ
time c = c.last_transition_time ∷ []

before :
    (c d : TknCondition)
    → text_leb (time c) (time d) ≡ true
    → c.last_transition_time ≤ d.last_transition_time
unfolding text_leb
before c d h = ground arith

All-In :
    (c d : TknCondition) (cs : List TknCondition)
    → All (λ x. text_leb (time c) (time x) ≡ true) cs
    → In d cs
    → c.last_transition_time ≤ d.last_transition_time
All-In c d [] h m = elim m [ ]
All-In c d (x ∷ cs) (h, k) m = elim (In-cons m) [
  | inl same ↦ subst (λ y. c.last_transition_time ≤ y.last_transition_time) same (before c x h)
  | inr i ↦ All-In c d cs k i
]

-- The last element of a sorted list is the greatest.
greatest :
    (c : TknCondition) (cs : List TknCondition)
    → IsSorted time (c ∷ cs)
    → (l : TknCondition) × (last_of (c ∷ cs) ≡ ok l)
      × In l (c ∷ cs)
      × ((d : TknCondition) → In d (c ∷ cs) → d.last_transition_time ≤ l.last_transition_time)
unfolding last_of
greatest c [] s = (
  c,
  refl,
  here,
  λ d m. elim (In-cons m) [
    | inl same ↦ subst (λ y. y.last_transition_time ≤ c.last_transition_time) same (omega arith)
    | inr i ↦ elim i [ ]
  ],
)
greatest c (x ∷ cs) (h, s) =
    let (l, e, i, all) = greatest x cs s in
    (
      l,
      e,
      there i,
      λ d m. elim (In-cons m) [
        | inl same ↦
            subst (λ y. y.last_transition_time ≤ l.last_transition_time) same
              (All-In c l (x ∷ cs) h i)
        | inr k ↦ all d k
      ],
    )

of_sorted :
    (cs : List TknCondition) (l : List TknCondition)
    → sorted time cs ≡ l
    → (c : TknCondition) → In c l
    → (d : TknCondition) × (run_status (some cs) ≡ ok (some d))
      × In d cs
      × ((x : TknCondition) → In x cs → x.last_transition_time ≤ d.last_transition_time)
unfolding run_status
of_sorted cs [] e c m = elim m [ ]
of_sorted cs (x ∷ l) e c m =
    let (d, q, i, all) = greatest x l (subst (IsSorted time) e (sorted-IsSorted time cs)) in
    (
      d,
      rw (e, q),
      sorted-In time cs (subst (In d) (sym e) i),
      λ y k. all y (subst (In y) e (In-sorted time cs k)),
    )

-- The status of a run with a condition or more is one of its conditions, and none has a later time.
pub run_status_latest :
    (c : TknCondition) (cs : List TknCondition)
    → (d : TknCondition) × (run_status (some (c ∷ cs)) ≡ ok (some d))
      × In d (c ∷ cs)
      × ((x : TknCondition) → In x (c ∷ cs) → x.last_transition_time ≤ d.last_transition_time)
run_status_latest c cs = of_sorted (c ∷ cs) _ refl c (In-sorted time (c ∷ cs) here)
