-- ===== src/Pairs/Termination.antt =====
-- The walk by two pointers ends on every heap: the faster pointer cannot pass more pairs than there are
-- objects, so it has met one twice, and then the pointers have met.
use native.Mathlib.Nat.{div-add-mod', mod-lt}
use secd_scheme.Prelude.{
  ℕ, zero, suc, ◌+◌, ◌-◌, ◌*◌, ◌/◌, ◌≤◌, ◌<◌, ◌≡◌, ◌≢◌, ◌⊎◌, refl, sym, ap, ◌∙◌, true, false, none,
  some, List, [], ◌∷◌, reverse, length, fetch, fetch-lt, arith, ◌==◌, ==_iff, ==_self, Bool-cases,
  Option-cases, inl, inr, if◌then◌else◌,
}
use secd_scheme.Value.{Value, object, Object}
use secd_scheme.Pairs.{cdr_or, pair_of, is_nil, same_object, Walk, finish, walk, walk_from}

beyond :
    (n : ℕ) (f : ℕ → ℕ) (x : ℕ)
    → ((i : ℕ) → i ≤ n → f i ≢ x)
    → f (suc n) ≢ x
    → (i : ℕ) → i ≤ suc n
    → f i ≢ x
beyond n f x never last i le e = elim (Bool-cases (i == suc n)) [
  | inl q ↦ last (ap f (sym ((==_iff i (suc n)).0 q)) ∙ e)
  | inr q ↦ never i (ground arith) e
]

only_zero : (f : ℕ → ℕ) (x : ℕ) → f 0 ≢ x → (i : ℕ) → i ≤ 0 → f i ≢ x
only_zero f x ne zero le e = ne e
only_zero f x ne (suc i) le e = absurd (omega (arith, le))

-- Whether a function takes a value at a number up to `n`.
found : (n : ℕ) (f : ℕ → ℕ) (x : ℕ) → ((i : ℕ) × (i ≤ n) × (f i ≡ x)) ⊎ ((i : ℕ) → i ≤ n → f i ≢ x)
found zero f x = elim (Bool-cases (f 0 == x)) [
  | inl e ↦ inl (0, omega arith, (==_iff (f 0) x).0 e)
  | inr e ↦ inr (only_zero f x (λ q. ground arith))
]
found (suc n) f x = elim (Bool-cases (f (suc n) == x)) [
  | inl e ↦ inl (suc n, omega arith, (==_iff (f (suc n)) x).0 e)
  | inr e ↦ elim (found n f x) [
    | inl (i, le, q) ↦ inl (i, omega (arith, le), q)
    | inr never ↦ inr (beyond n f x never (λ q. ground arith))
  ]
]

-- The function without the value `n`, which it takes at one number at most.
abbrev without : ℕ → (ℕ → ℕ) → ℕ → ℕ
without n f i = if f i == n then f (suc n) else f i

moved_lt : (a c n : ℕ) → a ≢ c → a < suc n → c < suc n → (if a == n then c else a) < n
moved_lt a c n ne la lc = ground arith

moved_same :
    (a b c n : ℕ) → a ≢ c → b ≢ c → (if a == n then c else a) ≡ (if b == n then c else b) → a ≡ b
moved_same a b c n na nb e = ground arith

pub twice :
    (n : ℕ) (f : ℕ → ℕ)
    → ((i : ℕ) → i ≤ n → f i < n)
    → (i : ℕ) × (j : ℕ) × (i < j) × (j ≤ n) × (f i ≡ f j)
twice zero f below = absurd (omega (arith, below 0 (omega arith)))
twice (suc n) f below = elim (found n f (f (suc n))) [
  | inl (i, le, e) ↦ (i, suc n, omega (arith, le), omega arith, e)
  | inr never ↦
      let (i, j, lt, le, e) = twice n (without n f) (λ i le.
        moved_lt (f i) (f (suc n)) n (never i le) (below i (omega (arith, le)))
          (below (suc n) (omega arith))) in
      (
        i,
        j,
        lt,
        omega (arith, le),
        moved_same (f i) (f j) (f (suc n)) n (never i (omega (arith, lt, le))) (never j le) e,
      )
]

-- The value after some steps along the cdrs; a value that is no pair stays.
unfoldable pub reach : List Object → ℕ → Value → Value
reach os zero v = v
reach os (suc k) v = reach os k (cdr_or (pair_of os v) v)

double : ℕ → ℕ
double zero = zero
double (suc k) = suc (suc (double k))

double_lem : (k : ℕ) → double k ≡ k + k
unfolding double
double_lem zero = refl
double_lem (suc k) = ground (arith, double_lem k)

reach-add :
    (os : List Object) (a b : ℕ) (v : Value) → reach os (a + b) v ≡ reach os b (reach os a v)
unfolding reach
reach-add os zero b v = let e : 0 + b ≡ b = omega arith in rw e refl
reach-add os (suc a) b v =
    let e : suc a + b ≡ suc (a + b) = omega arith in
    rw e (reach-add os a b (cdr_or (pair_of os v) v))

abbrev pub IsPair : List Object → Value → Type 0
IsPair os v = (p : Value × Value) × (pair_of os v ≡ some p)

-- The value after one step.
abbrev after : List Object → Value → Value
after os v = cdr_or (pair_of os v) v

finish_ends : (v : Value) (acc : List Value) → finish v acc ≢ Walk.endless
unfolding finish
finish_ends v acc e = elim (Bool-cases (is_nil v)) [
  | inl n ↦ let bad : Walk.proper (reverse acc) ≡ Walk.endless = rw (n, finish) at e in cc
  | inr n ↦ let bad : Walk.improper ≡ Walk.endless = rw (n, finish) at e in cc
]

-- A round of a walk that does not end.
opened :
    (fuel : ℕ) (os : List Object) (slow fast : Value) (acc : List Value)
    → walk (suc fuel) os slow fast acc ≡ Walk.endless
    → IsPair os fast
      × (same_object (after os (after os fast)) (after os slow) ≡ false)
      × (more : List Value) × (walk fuel os (after os slow) (after os (after os fast)) more
          ≡ Walk.endless)
unfolding walk
opened fuel os slow fast acc e = elim (Option-cases (pair_of os fast)) [
  | inl p ↦ absurd (finish_ends fast acc (rw (p, walk) at e))
  | inr ((a, d), p) ↦ elim (Option-cases (pair_of os d)) [
    | inl q ↦ absurd (finish_ends d (a ∷ acc) (rw (p, q, walk) at e))
    | inr ((b, f), q) ↦ elim (Bool-cases (same_object f (after os slow))) [
      | inl met ↦ let bad : Walk.circular ≡ Walk.endless = rw (p, q, met, walk) at e in cc
      | inr go_on ↦
          (((a, d), p), rw (p, q) go_on, b ∷ (a ∷ acc), rw (p, q) (rw (p, q, go_on, walk) at e))
    ]
  ]
]

-- What every round of a walk that does not end has seen.
rounds :
    (fuel : ℕ) (os : List Object) (slow fast : Value) (acc : List Value)
    → walk fuel os slow fast acc ≡ Walk.endless
    → (k : ℕ) → k < fuel
    → IsPair os (reach os (double k) fast)
      × (same_object (reach os (double (suc k)) fast) (reach os (suc k) slow) ≡ false)
unfolding reach double
rounds zero os slow fast acc e k lt = absurd (omega (arith, lt))
rounds (suc fuel) os slow fast acc e zero lt =
    let (p, apart, more, rest) = opened fuel os slow fast acc e in (p, apart)
rounds (suc fuel) os slow fast acc e (suc k) lt =
    let (p, apart, more, rest) = opened fuel os slow fast acc e in
    rounds fuel os (after os slow) (after os (after os fast)) more rest k (omega (arith, lt))

abbrev pub address : Value → ℕ
address (object a) = a
address _ = 0

pair_of-lt :
    (os : List Object) (a : ℕ) (p : Value × Value) → pair_of os (object a) ≡ some p → a < length os
unfolding pair_of
pair_of-lt os a p e = elim (Option-cases (fetch a os)) [
  | inl n ↦ let bad : none ≡ some p = rw n at e in cc
  | inr (o, there) ↦ fetch-lt a os there
]

pub IsPair-object :
    (os : List Object) (v : Value)
    → IsPair os v
    → (v ≡ object (address v)) × (address v < length os)
unfolding pair_of
IsPair-object os (object a) (p, e) = (refl, pair_of-lt os a p e)
IsPair-object os v (p, e) = absurd cc

stays : (os : List Object) (k : ℕ) (v : Value) → pair_of os v ≡ none → reach os k v ≡ v
unfolding reach
stays os zero v e = refl
stays os (suc k) v e = rw e (stays os k v e)

-- As long as the fast pointer is at a pair, so is the slow one.
behind :
    (os : List Object) (k : ℕ) (v : Value)
    → IsPair os (reach os (double k) v)
    → IsPair os (reach os k v)
behind os k v (p, e) = elim (Option-cases (pair_of os (reach os k v))) [
  | inl n ↦
      let still : reach os (double k) v ≡ reach os k v =
        rw (double_lem k, reach-add os k k v) (stays os k (reach os k v) n) in
      let bad : none ≡ some p = sym n ∙ ap (pair_of os) (sym still) ∙ e in cc
  | inr s ↦ s
]

-- A value that is reached twice is reached again and again.
cycle :
    (os : List Object) (v : Value) (i p : ℕ)
    → reach os i v ≡ reach os (i + p) v
    → (q t n : ℕ) → n ≡ (i + t) + q * p
    → reach os (i + t) v ≡ reach os n v
cycle os v i p e zero t n at_n = ap (λ m. reach os m v) (ground (arith, at_n))
cycle os v i p e (suc q) t n at_n =
    reach-add os i t v
    ∙ ap (reach os t) e
    ∙ sym (reach-add os (i + p) t v)
    ∙ ap (λ m. reach os m v) (omega arith)
    ∙ cycle os v i p e q (t + p) n (ground (arith, at_n))

multiple : (i p : ℕ) → 0 < p → (q : ℕ) × (i ≤ q * p) × (q * p ≤ i + p) × (0 < q * p)
multiple i p pos =
    let whole = div-add-mod' i p in
    let part = mod-lt i pos in
    (suc (i / p), ground (arith, whole, part), ground (arith, whole), ground arith)

meet_at :
    (os : List Object) (v : Value) (i p q m : ℕ)
    → reach os i v ≡ reach os (i + p) v
    → m ≡ q * p
    → i ≤ m
    → reach os (double m) v ≡ reach os m v
meet_at os v i p q m e at_m le =
    let there : m ≡ i + (m - i) = omega (arith, le) in
    let round : reach os (i + (m - i)) v ≡ reach os (m + m) v =
      cycle os v i p e q (m - i) (m + m) (omega (arith, at_m, le)) in
    ap (λ n. reach os n v) (double_lem m) ∙ sym round ∙ ap (λ n. reach os n v) (sym there)

-- The two pointers stand at one value after some round.
meet :
    (os : List Object) (v : Value) (i j : ℕ)
    → i < j
    → reach os i v ≡ reach os j v
    → (k : ℕ) × (suc k ≤ j) × (reach os (double (suc k)) v ≡ reach os (suc k) v)
meet os v i j lt e =
    let (q, ge, le, positive) = multiple i (j - i) (omega (arith, lt)) in
    let at_j : j ≡ i + (j - i) = omega (arith, lt) in
    (
      q * (j - i) - 1,
      omega (arith, le, positive, lt),
      meet_at os v i (j - i) q (suc (q * (j - i) - 1)) (e ∙ ap (λ n. reach os n v) at_j)
          (omega (arith, positive)) (omega (arith, ge, positive)),
    )

same_object_self : (os : List Object) (v : Value) → IsPair os v → same_object v v ≡ true
unfolding same_object pair_of
same_object_self os (object a) p = ==_self a
same_object_self os v (p, e) = absurd cc

-- The walk from any value ends within the rounds it is given.
pub walk_from_ends : (os : List Object) (v : Value) → walk_from os v ≢ Walk.endless
unfolding walk_from
walk_from_ends os v e =
    let (i, j, lt, le, same) =
      twice (length os) (λ k. address (reach os k v))
        (λ k le. (IsPair-object os (reach os k v) (slow_pair k (omega (arith, le)))).1) in
    let at_i = (IsPair-object os (reach os i v) (slow_pair i (omega (arith, lt, le)))).0 in
    let at_j = (IsPair-object os (reach os j v) (slow_pair j (omega (arith, le)))).0 in
    let (k, below, met) = meet os v i j lt (at_i ∙ ap object same ∙ sym at_j) in
    let apart = (rounds (suc (length os)) os v v [] e k (omega (arith, below, le))).1 in
    let one =
      same_object_self os (reach os (suc k) v) (slow_pair (suc k) (omega (arith, below, le))) in
    let bad : true ≡ false =
      sym one ∙ ap (λ w. same_object w (reach os (suc k) v)) (sym met) ∙ apart in
    cc
  where
    slow_pair : (k : ℕ) → k < suc (length os) → IsPair os (reach os k v)
    slow_pair k lt = behind os k v ((rounds (suc (length os)) os v v [] e k lt).0)
