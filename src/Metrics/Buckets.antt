-- ===== src/Metrics/Buckets.antt =====
-- src/metrics.rs: what the buckets of a histogram count, and what the rendering makes of them.
use Prim.Native.Nat.add
use ovp_data_api.Base.{
  ℕ, ◌+◌, ◌*◌, ◌^◌, ◌≤◌, ◌<◌, List, [], ◌∷◌, ◌++◌, map, length, All, leb, if◌then◌else◌, ◌≡◌, arith,
  refl, sym, length-map, drop, ap, ◌∙◌, Text, suc,
}
use ovp_data_api.Metrics.{
  Histogram, default_uppers, new_histogram, bump, observe, u64, render_buckets, render_histogram,
  Line, bucket,
}

unfoldable pub observe_all : Histogram → List ℕ → Histogram
observe_all h [] = h
observe_all h (n ∷ ns) = observe_all (observe h n) ns

-- How many of the observations are at most `u`.
abbrev pub count_le : ℕ → List ℕ → ℕ
count_le u [] = 0
count_le u (n ∷ ns) = (if leb n u then 1 else 0) + count_le u ns

abbrev tally : List ℕ → List ℕ → List ℕ → List ℕ
tally [] cs ns = cs
tally (u ∷ us) [] ns = []
tally (u ∷ us) (c ∷ cs) ns = (c + count_le u ns) ∷ tally us cs ns

abbrev Fit : ℕ → List ℕ → Type 0
Fit n = All (λ c. c + n < 2 ^ 64)

tally_nil : (us cs : List ℕ) → length us ≡ length cs → tally us cs [] ≡ cs
tally_nil [] cs h = refl
tally_nil (u ∷ us) [] h = ground arith
tally_nil (u ∷ us) (c ∷ cs) h = ground (arith, tally_nil us cs)

tally-bump :
    (us cs : List ℕ) (n : ℕ) (ns : List ℕ)
    → Fit (suc (length ns)) cs
    → tally us (bump us cs n) ns ≡ tally us cs (n ∷ ns)
unfolding bump
tally-bump [] cs n ns f = refl
tally-bump (u ∷ us) [] n ns f = refl
tally-bump (u ∷ us) (c ∷ cs) n ns f = ground (arith, tally-bump us cs n ns f.1)

bump-Fit : (us cs : List ℕ) (n k : ℕ) → Fit (suc k) cs → Fit k (bump us cs n)
unfolding bump
bump-Fit [] [] n k f = tt
bump-Fit [] (c ∷ cs) n k f = (omega arith, bump-Fit [] cs n k f.1)
bump-Fit (u ∷ us) [] n k f = tt
bump-Fit (u ∷ us) (c ∷ cs) n k f = (ground arith, bump-Fit us cs n k f.1)

length-bump : (us cs : List ℕ) (n : ℕ) → length us ≡ length cs → length us ≡ length (bump us cs n)
unfolding bump
length-bump [] cs n h = h
length-bump (u ∷ us) [] n h = ground arith
length-bump (u ∷ us) (c ∷ cs) n h = ground (arith, length-bump us cs n)

observe_all-tally :
    (h : Histogram) (ns : List ℕ)
    → length h.buckets_upper ≡ length h.buckets_count
    → Fit (length ns) h.buckets_count
    → (observe_all h ns).buckets_count ≡ tally h.buckets_upper h.buckets_count ns
unfolding observe_all observe
observe_all-tally h [] e f = sym (tally_nil h.buckets_upper h.buckets_count e)
observe_all-tally h (n ∷ ns) e f =
    observe_all-tally (observe h n) ns (length-bump h.buckets_upper h.buckets_count n e)
      (bump-Fit h.buckets_upper h.buckets_count n (length ns) f)
    ∙ tally-bump h.buckets_upper h.buckets_count n ns f

zeros : List ℕ → List ℕ
zeros us = map (λ _. 0) us

zeros-Fit : (us : List ℕ) (n : ℕ) → n < 2 ^ 64 → Fit n (zeros us)
unfolding zeros
zeros-Fit [] n h = tt
zeros-Fit (u ∷ us) n h = (omega arith, zeros-Fit us n h)

tally-zeros : (us ns : List ℕ) → tally us (zeros us) ns ≡ map (λ u. count_le u ns) us
unfolding zeros
tally-zeros [] ns = refl
tally-zeros (u ∷ us) ns = ground (arith, tally-zeros us ns)

-- After any observations bucket by bucket the count is the number of observations at most its bound.
buckets-count_le :
    (uppers ns : List ℕ)
    → length ns < 2 ^ 64
    → (observe_all (new_histogram uppers) ns).buckets_count ≡ map (λ u. count_le u ns) uppers
unfolding new_histogram zeros
buckets-count_le uppers ns h =
    observe_all-tally (new_histogram uppers) ns (sym (length-map (λ _. 0) uppers))
      (zeros-Fit uppers (length ns) h)
    ∙ tally-zeros uppers ns

-- The counts of the bucket lines of a rendering.
abbrev pub bucket_counts : List Line → List ℕ
bucket_counts [] = []
bucket_counts (bucket name u c ∷ ls) = c ∷ bucket_counts ls
bucket_counts (_ ∷ ls) = bucket_counts ls

All-fast :
    (u : ℕ) (ns : List ℕ) → 5_000_000 ≤ u → All (λ n. n ≤ 5_000_000) ns → count_le u ns ≡ length ns
All-fast u [] h a = refl
All-fast u (n ∷ ns) h a = ground (arith, All-fast u ns h a.1)

abbrev pub prefix_sums : ℕ → List ℕ → List ℕ
prefix_sums acc [] = []
prefix_sums acc (c ∷ cs) = (acc + c) ∷ prefix_sums (acc + c) cs

-- The running sum stays below 2^64.
abbrev Sums : ℕ → List ℕ → Type 0
Sums acc [] = Unit {0}
Sums acc (c ∷ cs) = (acc + c < 2 ^ 64) × Sums (acc + c) cs

bucket_counts-append :
    (ls ms : List Line) → bucket_counts (ls ++ ms) ≡ bucket_counts ls ++ bucket_counts ms
bucket_counts-append [] ms = refl
bucket_counts-append (bucket name u c ∷ ls) ms =
    ap (λ (xs : List ℕ). c ∷ xs) (bucket_counts-append ls ms)
bucket_counts-append (_ ∷ ls) ms = bucket_counts-append ls ms

render_buckets-prefix_sums :
    (name : Text) (acc : ℕ) (us cs : List ℕ)
    → length us ≡ length cs
    → Sums acc cs
    → bucket_counts (render_buckets name acc us cs) ≡ prefix_sums acc cs
unfolding render_buckets
render_buckets-prefix_sums name acc [] [] e s = refl
render_buckets-prefix_sums name acc [] (c ∷ cs) e s = ground arith
render_buckets-prefix_sums name acc (u ∷ us) [] e s = ground arith
render_buckets-prefix_sums name acc (u ∷ us) (c ∷ cs) e s =
    let fits : u64 (acc + c) ≡ acc + c = omega arith in
    rw fits (
      ap (λ (xs : List ℕ). (acc + c) ∷ xs)
        (render_buckets-prefix_sums name (acc + c) us cs (ground arith) s.1))

count_le_le : (u : ℕ) (ns : List ℕ) → count_le u ns ≤ length ns
count_le_le u [] = omega arith
count_le_le u (n ∷ ns) = ground (arith, count_le_le u ns)

Sums-bounded :
    (us ns : List ℕ) (acc : ℕ)
    → acc + length us * length ns < 2 ^ 64
    → Sums acc (map (λ u. count_le u ns) us)
Sums-bounded [] ns acc h = tt
Sums-bounded (u ∷ us) ns acc h = (
  grind (arith, count_le_le u ns),
  Sums-bounded us ns (acc + count_le u ns) (grind (arith, count_le_le u ns)),
)

observe_all-count :
    (h : Histogram) (ns : List ℕ)
    → h.count + length ns < 2 ^ 64
    → (observe_all h ns).count ≡ h.count + length ns
unfolding observe_all observe
observe_all-count h [] b = omega arith
observe_all-count h (n ∷ ns) b =
    let fits : u64 (h.count + 1) ≡ h.count + 1 = omega arith in
    omega (arith, fits, observe_all-count (observe h n) ns (omega (arith, fits)))

observe_all-uppers :
    (h : Histogram) (ns : List ℕ) → (observe_all h ns).buckets_upper ≡ h.buckets_upper
unfolding observe_all observe
observe_all-uppers h [] = refl
observe_all-uppers h (n ∷ ns) = observe_all-uppers (observe h n) ns

new-count :
    (uppers ns : List ℕ)
    → length ns < 2 ^ 64
    → (observe_all (new_histogram uppers) ns).count ≡ length ns
unfolding new_histogram
new-count uppers ns h = omega (arith, observe_all-count (new_histogram uppers) ns (omega arith))

new-uppers : (uppers ns : List ℕ) → (observe_all (new_histogram uppers) ns).buckets_upper ≡ uppers
unfolding new_histogram
new-uppers uppers ns = observe_all-uppers (new_histogram uppers) ns

-- The rendering of a histogram adds the counts up once more: the line of a bound is the sum, over
-- the bounds up to it, of the numbers of observations at most each; the `+Inf` line is the number
-- of observations.
pub rendered_prefix_sums :
    (name : Text) (uppers ns : List ℕ)
    → length uppers * length ns < 2 ^ 64
    → length ns < 2 ^ 64
    → bucket_counts (render_histogram name (observe_all (new_histogram uppers) ns))
      ≡ prefix_sums 0 (map (λ u. count_le u ns) uppers) ++ length ns ∷ []
unfolding render_histogram
rendered_prefix_sums name uppers ns h k =
    rw
      (
        bucket_counts-append,
        new-uppers uppers ns,
        buckets-count_le uppers ns k,
        new-count uppers ns k,
      )
      (ap (λ (xs : List ℕ). xs ++ length ns ∷ [])
        (render_buckets-prefix_sums name 0 uppers (map (λ u. count_le u ns) uppers)
          (sym (length-map (λ u. count_le u ns) uppers)) (Sums-bounded uppers ns 0 (omega arith))))

-- The default bounds above 10 ms.
abbrev slower : List ℕ
slower = drop 2 default_uppers

-- So the rendering breaks the format that it names: after one or more observations, none above
-- 5 ms, the line of 10 ms counts twice as many observations as the `+Inf` line.
pub fast_overcounted :
    (name : Text) (ns : List ℕ)
    → All (λ n. n ≤ 5_000_000) ns
    → 11 * length ns < 2 ^ 64
    → (rest : List ℕ) × (bucket_counts
          (render_histogram name (observe_all (new_histogram default_uppers) ns))
        ≡ length ns ∷ (length ns + length ns) ∷ (rest ++ length ns ∷ []))
fast_overcounted name ns a h =
    let first : count_le 5_000_000 ns ≡ length ns = All-fast 5_000_000 ns (omega arith) a in
    let second : count_le 10_000_000 ns ≡ length ns = All-fast 10_000_000 ns (omega arith) a in
    (
      prefix_sums (length ns + length ns) (map (λ u. count_le u ns) slower),
      rendered_prefix_sums name default_uppers ns (omega arith) (omega arith)
          ∙ rw (add.zero, first, second) refl,
    )
