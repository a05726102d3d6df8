-- ===== src/Vram/Layers/Fit.antt =====
-- What `FitLayers` admits fits, and no larger partial offload would.
use home_inference_server.Prelude.{
  ℕ, suc, ◌+◌, ◌*◌, ◌/◌, ◌-◌, ◌^◌, ◌≤◌, ◌<◌, ◌≡◌, ◌⊎◌, ◌≢◌, true, false, arith, if◌then◌else◌, leb,
  leb→le, ltb, ◌==◌, Bool-cases, inl, inr,
}
use home_inference_server.Prelude.Int.{
  ℤ, pos, sub_ℕ, eqb_ℤ-cases, add64-pos, sub64-pos, mul64-pos, quot64-pos,
}
use home_inference_server.Vram.Layers.{
  all_layers, layers_or_default, weight_budget, clip_layers, fit_layers, gpu_resident_mb,
  fits_with_buffer,
}

-- Sizes in MB, layer counts and percentages far below the 64-bit limits, so that nothing wraps.
pub record InRange (w kv a t p : ℕ) : Type 0 where
  pub weight : w < 2 ^ 31
  pub overhead : kv < 2 ^ 31
  pub available : a < 2 ^ 31
  pub layers : t < 2 ^ 31
  pub percent : p < 2 ^ 31

-- The free VRAM that is left when the buffer is taken off.
abbrev pub share : ℕ → ℕ → ℕ
share a p = a * 100 / (100 + p)

abbrev pub layer_count : ℕ → ℕ
layer_count t = if t == 0 then 32 else t

pub layers_or_default-pos : (t : ℕ) → layers_or_default (pos t) ≡ pos (layer_count t)
unfolding layers_or_default
layers_or_default-pos t = ground arith

div-mul-le : (x y : ℕ) → x / y * y ≤ x
div-mul-le x y = grind arith

div-le : (x y : ℕ) → x / y ≤ x
div-le x y = grind arith

share-mul-le : (a p : ℕ) → share a p * (100 + p) ≤ a * 100
share-mul-le a p = div-mul-le (a * 100) (100 + p)

share-le : (a p : ℕ) → share a p ≤ a
share-le a p = grind (arith, share-mul-le a p)

mul-le : (x y k : ℕ) → x ≤ y → x * k ≤ y * k
mul-le x y k h = grind arith

le→leb : (a b : ℕ) → a ≤ b → leb (a + 0) (b + 0) ≡ true
le→leb a b h = ground arith

mul_bound : (x y m n : ℕ) → x < m → y < n → x * y < m * n
mul_bound x y m n h k = grind arith

pub weight_budget-pos :
    (kv a p : ℕ)
    → kv < 2 ^ 31
    → a < 2 ^ 31
    → p < 2 ^ 31
    → weight_budget (pos kv) (pos a) (pos p) ≡ sub_ℕ (share a p) kv
unfolding weight_budget
weight_budget-pos kv a p hk ha hp = rw (
  mul64-pos a 100 (omega arith),
  add64-pos 100 p (omega arith),
  quot64-pos (a * 100) (100 + p) (omega arith),
  sub64-pos (share a p) kv (omega (arith, share-le a p)) (omega arith),
)

buffered : (r a p : ℕ) → r ≤ share a p → r + r * p / 100 ≤ a
buffered r a p h = grind (arith, share-mul-le a p, mul-le r (share a p) (100 + p) h)

-- A footprint within the share passes the buffer test.
fits_of-le :
    (r a p : ℕ)
    → r < 2 ^ 32
    → p < 2 ^ 31
    → r ≤ share a p
    → fits_with_buffer (pos r) (pos a) (pos p) ≡ true
unfolding fits_with_buffer
fits_of-le r a p hr hp h =
    let product : r * p < 2 ^ 63 = omega (arith, mul_bound r p (2 ^ 32) (2 ^ 31) hr hp) in
    rw
      (
        mul64-pos r p product,
        quot64-pos (r * p) 100 (omega arith),
        add64-pos r (r * p / 100) (omega arith),
      )
      (le→leb (r + r * p / 100) a (buffered r a p h))

-- What a layer count means: the whole model fits in the share, or `n` layers are the most whose
-- weights fit beside the overhead, or not one does.
pub data Fit (w kv a t p : ℕ) (r : ℤ) : Type 0 where
  whole : r ≡ all_layers → w + kv ≤ share a p → Fit w kv a t p r
  partial :
      (n : ℕ)
      → r ≡ pos n
      → 0 < n
      → n < layer_count t
      → w * n + kv * layer_count t ≤ share a p * layer_count t
      → share a p * layer_count t < w * suc n + kv * layer_count t
      → Fit w kv a t p r
  cpu : r ≡ pos 0 → share a p * layer_count t < w + kv * layer_count t → Fit w kv a t p r

div-upper : (x w : ℕ) → 0 < w → x < w * suc (x / w)
div-upper x w h = grind arith

div-lower : (x w : ℕ) → w * (x / w) ≤ x
div-lower x w = grind arith

layer_count-pos : (t : ℕ) → 0 < layer_count t
layer_count-pos t = ground arith

layer_count-lt : (t : ℕ) → t < 2 ^ 31 → layer_count t < 2 ^ 31
layer_count-lt t h = ground arith

pub fit_layers-pos :
    (w kv a t p : ℕ)
    → InRange w kv a t p
    → 0 < w
    → fit_layers (pos w) (pos kv) (pos a) (pos t) (pos p) ≡ (
        if leb (w + kv) (share a p)
        then all_layers
        else if leb (share a p) kv
        then pos 0
        else clip_layers (pos ((share a p - kv) * layer_count t / w)) (pos (layer_count t)))
unfolding fit_layers
fit_layers-pos w kv a t p r h =
    let S = share a p in
    let T = layer_count t in
    let B = S - kv in
    let small : B < 2 ^ 31 = omega (arith, share-le a p, r.available) in
    let product : B * T < 2 ^ 62 =
      omega (arith, mul_bound B T (2 ^ 31) (2 ^ 31) small (layer_count-lt t r.layers)) in
    rw (layers_or_default-pos t, weight_budget-pos kv a p r.overhead r.available r.percent)
      (ground (arith, mul64-pos B T, quot64-pos (B * T) w))

quotient-lt : (B T w n : ℕ) → 0 < T → B < w → w * n ≤ B * T → n < T
quotient-lt B T w n h k l = grind arith

starved-lt : (S kv w T : ℕ) → 0 < w → S ≤ kv → S * T < w + kv * T
starved-lt S kv w T h k = omega (arith, mul-le S kv T k)

-- The clipped quotient, where the budget is positive and below the weights.
clip-Fit :
    (w kv a t p B : ℕ)
    → share a p ≡ B + kv
    → 0 < w
    → B < w
    → Fit w kv a t p (clip_layers (pos (B * layer_count t / w)) (pos (layer_count t)))
unfolding clip_layers
clip-Fit w kv a t p B e h small =
    let T = layer_count t in
    let n = B * T / w in
    let lower : w * n ≤ B * T = div-lower (B * T) w in
    let upper : B * T < w * suc n = div-upper (B * T) w h in
    let whole_share : share a p * T ≡ B * T + kv * T = rw e (omega arith) in
    let below : n < T = quotient-lt B T w n (layer_count-pos t) small lower in
    elim (Bool-cases (ltb n 1)) [
      | inl none_fits ↦ cpu (ground arith) (ground arith)
      | inr some_fit ↦ partial n (ground arith) (ground arith) below (omega arith) (omega arith)
    ]

fit_layers-Fit :
    (w kv a t p : ℕ)
    → InRange w kv a t p
    → 0 < w
    → Fit w kv a t p (fit_layers (pos w) (pos kv) (pos a) (pos t) (pos p))
fit_layers-Fit w kv a t p r h =
    rw (fit_layers-pos w kv a t p r h) (elim (Bool-cases (leb (w + kv) (share a p))) [
      | inl fits ↦ whole (rw fits) (leb→le (w + kv) (share a p) fits)
      | inr tight ↦ elim (Bool-cases (leb (share a p) kv)) [
        | inl starved ↦
            cpu (rw (tight, starved))
              (starved-lt (share a p) kv w (layer_count t) h (leb→le (share a p) kv starved))
        | inr room ↦
            rw (tight, room) (clip-Fit w kv a t p (share a p - kv) (ground arith) h (ground arith))
      ]
    ])

leb-false : (S m : ℕ) → leb m S ≡ false → suc S ≤ m
leb-false S m h = ground arith

cancel-le : (q kv S T : ℕ) → 0 < T → T * q + kv * T ≤ S * T → q + kv ≤ S
cancel-le q kv S T h k = elim (Bool-cases (leb (q + kv) S)) [
  | inl le ↦ leb→le (q + kv) S le
  | inr lt ↦ absurd (omega (arith, k, h, mul-le (suc S) (q + kv) T (leb-false S (q + kv) lt)))
]

le_lt : (n T : ℕ) {m : ℕ} → T < m → n < T → n < m
le_lt n T h k = omega arith

-- The footprint of a load with the chosen layers is within the share.
pub resident_of-Fit :
    (w kv a t p : ℕ) {r : ℤ}
    → InRange w kv a t p
    → Fit w kv a t p r
    → r ≢ pos 0
    → (m : ℕ) × (gpu_resident_mb (pos w) (pos kv) r (pos t) ≡ pos m) × (m ≤ share a p)
unfolding gpu_resident_mb
resident_of-Fit w kv a t p v (whole e le) n =
    (w + kv, rw e (add64-pos w kv (omega (arith, v.weight, v.overhead))), le)
resident_of-Fit w kv a t p v (partial n e low high fits most) ne =
    let T = layer_count t in
    let q = w * n / T in
    let product : w * n < 2 ^ 62 = omega (
      arith,
      mul_bound w n (2 ^ 31) (2 ^ 31) v.weight (le_lt n T (layer_count-lt t v.layers) high),
    ) in
    let small : q < 2 ^ 62 = omega (arith, div-le (w * n) T) in
    (
      q + kv,
      rw (e, layers_or_default-pos t)
          (ground (arith, v.overhead, mul64-pos w n, quot64-pos (w * n) T, add64-pos q kv)),
      cancel-le q kv (share a p) T (layer_count-pos t) (omega (arith, div-lower (w * n) T)),
    )
resident_of-Fit w kv a t p v (cpu e _) ne = absurd (ne e)

fit_layers-fits :
    (w kv a t p : ℕ)
    → InRange w kv a t p
    → 0 < w
    → fit_layers (pos w) (pos kv) (pos a) (pos t) (pos p) ≢ pos 0
    → fits_with_buffer
        (gpu_resident_mb
          (pos w)
          (pos kv)
          (fit_layers (pos w) (pos kv) (pos a) (pos t) (pos p))
          (pos t))
        (pos a)
        (pos p)
      ≡ true
fit_layers-fits w kv a t p v h ne =
    let (m, e, le) = resident_of-Fit w kv a t p v (fit_layers-Fit w kv a t p v h) ne in
    rw e (fits_of-le m a p (omega (arith, le, share-le a p, v.available)) v.percent le)

-- For sizes, counts and percentages below 2^31 and a weight that is not zero, the layer count is the
-- largest that fits: -1 only if all of the model fits in the share, `n` if the weights of `n` layers fit
-- beside the overhead and those of `n + 1` do not, and 0 only if not one layer does; and what it admits on
-- the GPU passes the buffer test of the reuse check.
pub fit_layers-Fits :
    (w kv a t p : ℕ)
    → InRange w kv a t p
    → 0 < w
    → Fit w kv a t p (fit_layers (pos w) (pos kv) (pos a) (pos t) (pos p))
      × ((fit_layers (pos w) (pos kv) (pos a) (pos t) (pos p) ≡ pos 0)
          ⊎ (fits_with_buffer
                (gpu_resident_mb
                  (pos w)
                  (pos kv)
                  (fit_layers (pos w) (pos kv) (pos a) (pos t) (pos p))
                  (pos t))
                (pos a)
                (pos p)
              ≡ true))
fit_layers-Fits w kv a t p v h = (
  fit_layers-Fit w kv a t p v h,
  elim (eqb_ℤ-cases (fit_layers (pos w) (pos kv) (pos a) (pos t) (pos p))) [
    | inl (zero_layers, none_fits) ↦ inl none_fits
    | inr (some_layers, some_fit) ↦ inr (fit_layers-fits w kv a t p v h some_fit)
  ],
)
