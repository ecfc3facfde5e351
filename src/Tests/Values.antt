-- ===== src/Tests/Values.antt =====
-- Message values as lists of numbers, and a compressor of runs of zeros, for examples.
use reticulum_router.Prelude.{
  ℕ, zero, suc, ◌≤◌, ◌≡◌, refl, ap, Bool, true, false, Option, none, some, List, [], ◌∷◌, ◌++◌,
  length, take, drop, all, length-append, take-append_self, drop-append_self, arith, ◌==◌,
  if◌then◌else◌, Bool-cases, inl, inr,
}
use reticulum_router.Text.{Bytes}
use reticulum_router.Rnsh.Messages.{Rmpv}
use reticulum_router.Rnsh.Stream.{Bzip2}

unfoldable pub packed : List Bytes → Bytes
packed [] = []
packed (v ∷ vs) = length v ∷ v ++ packed vs

unfoldable pub chunks : ℕ → Bytes → List Bytes
chunks zero b = []
chunks (suc f) [] = []
chunks (suc f) (n ∷ b) = take n b ∷ chunks f (drop n b)

pub chunks-packed : (f : ℕ) (vs : List Bytes) → length vs ≤ f → chunks f (packed vs) ≡ vs
unfolding chunks packed
chunks-packed zero [] h = refl
chunks-packed (suc f) [] h = refl
chunks-packed zero (v ∷ vs) h = absurd (omega arith)
chunks-packed (suc f) (v ∷ vs) h =
    rw (take-append_self v (packed vs), drop-append_self v (packed vs))
      (ap (◌∷◌ v) (chunks-packed f vs (omega arith)))

pub length-packed : (vs : List Bytes) → length vs ≤ length (packed vs)
unfolding packed
length-packed [] = omega arith
length-packed (v ∷ vs) = omega (arith, length-packed vs, length-append v (packed vs))

abbrev pub tag : ℕ → Bytes → Option Bytes
tag t [] = none
tag t (u ∷ s) = if u == t then some s else none

abbrev pub first : Option Bytes → Option ℕ
first (some (n ∷ [])) = some n
first _ = none

abbrev pub truth : Option ℕ → Option Bool
truth none = none
truth (some n) = some (n == 1)

abbrev pub all_chunks : Option Bytes → Option (List Bytes)
all_chunks none = none
all_chunks (some b) = some (chunks (length b) b)

abbrev pub number : Bool → ℕ
number true = 1
number false = 0

pub as_bool_back : (b : Bool) → truth (first (tag 3 (3 ∷ number b ∷ []))) ≡ some b
as_bool_back true = refl
as_bool_back false = refl

abbrev pub listed : Rmpv
listed = record {
  Value = Bytes;
  nil = 0 ∷ [];
  str = λ s. 1 ∷ s;
  int = λ n. 2 ∷ n ∷ [];
  bool = λ b. 3 ∷ number b ∷ [];
  array = λ vs. 4 ∷ packed vs;
  as_str = tag 1;
  as_u64 = λ v. first (tag 2 v);
  as_bool = λ v. truth (first (tag 3 v));
  as_array = λ v. all_chunks (tag 4 v);
  write_value = λ v. v;
  read_value = λ b. some b;
  as_str-str = λ s. refl;
  as_str-nil = refl;
  as_u64-int = λ n h. refl;
  as_bool-bool = as_bool_back;
  as_array-array = λ vs. ap some (chunks-packed (length (packed vs)) vs (length-packed vs));
  read_value-write_value = λ v. refl;
}

unfoldable pub zeros : ℕ → Bytes
zeros zero = []
zeros (suc n) = 0 ∷ zeros n

zeros_of : (b : Bytes) → all (λ x. x == 0) b ≡ true → zeros (length b) ≡ b
unfolding zeros all
zeros_of [] h = refl
zeros_of (x ∷ b) h =
    let e : 0 ≡ x = ground (arith, h) in rw (← e) (ap (◌∷◌ 0) (zeros_of b (ground (arith, h))))

abbrev pub run_of : Bytes → Option Bytes
run_of b = if all (λ x. x == 0) b then some (length b ∷ []) else none

abbrev pub expand : ℕ → Bytes → Option Bytes
expand n (k ∷ []) = some (take n (zeros k))
expand n _ = none

pub expand-run_of :
    (n : ℕ) (b : Bytes) {c : Bytes} → run_of b ≡ some c → expand n c ≡ some (take n b)
expand-run_of n b {c} e = elim (Bool-cases (all (λ x. x == 0) b)) [
  | inl y ↦ let coded : length b ∷ [] ≡ c = ground (arith, e, y) in rw (← coded, zeros_of b y) refl
  | inr h ↦ absurd (ground (arith, e, h))
]

abbrev pub runs : Bzip2
runs = record { encode = run_of; decode = expand; decode-encode = expand-run_of }
