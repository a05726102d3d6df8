-- ===== src/Vram/Backend/Choose/Admission.antt =====
-- Which tier is admitted, and when none is.
use home_inference_server.Prelude.{
  Bool, true, false, Option, none, some, List, [], ◌∷◌, ◌++◌, ◌≡◌, ◌≢◌, refl, ◌⊎◌, inl, inr, All,
  Bool-cases,
}
use home_inference_server.Prelude.Int.{ℤ, pos, eqb_ℤ-cases, ltb_ℤ}
use home_inference_server.Types.Model.{ModelDescriptor, TierLabel}
use home_inference_server.Vram.Backend.{Options}
use home_inference_server.Vram.Backend.Choose.{
  matches, fit_of, overhead_fits, largest_on_gpu, smallest_on_cpu, choose,
}

module _ (o : Options) (forced : Option TierLabel) (needs_vision : Bool) (avail : ℤ) where
  -- A tier that the request may not use, or of which no layer fits on the GPU.
  abbrev pub NotOnGpu : ModelDescriptor → Type 0
  NotOnGpu d = (matches forced needs_vision d ≡ false) ⊎ (fit_of o needs_vision avail d ≡ pos 0)

  -- A tier that the request may not use, or whose buffers alone do not fit.
  abbrev pub NotOnCpu : ModelDescriptor → Type 0
  NotOnCpu d =
      (matches forced needs_vision d ≡ false) ⊎ (overhead_fits o needs_vision avail d ≡ false)

  -- What the decision for a roster (small to large) means.
  pub data Admits (roster : List ModelDescriptor) (c : Option (ModelDescriptor × ℤ)) : Type 0 where
    on_gpu :
        (smaller : List ModelDescriptor) (d : ModelDescriptor) (larger : List ModelDescriptor)
        → roster ≡ smaller ++ d ∷ larger
        → c ≡ some (d, fit_of o needs_vision avail d)
        → matches forced needs_vision d ≡ true
        → fit_of o needs_vision avail d ≢ pos 0
        → All NotOnGpu larger
        → Admits roster c
    on_cpu :
        (smaller : List ModelDescriptor) (d : ModelDescriptor) (larger : List ModelDescriptor)
        → roster ≡ smaller ++ d ∷ larger
        → c ≡ some (d, pos 0)
        → matches forced needs_vision d ≡ true
        → overhead_fits o needs_vision avail d ≡ true
        → All NotOnGpu roster
        → All NotOnCpu smaller
        → Admits roster c
    refused : c ≡ none → All NotOnGpu roster → All NotOnCpu roster → Admits roster c

  data Gpu (roster : List ModelDescriptor) (c : Option (ModelDescriptor × ℤ)) : Type 0 where
    found :
        (smaller : List ModelDescriptor) (d : ModelDescriptor) (larger : List ModelDescriptor)
        → roster ≡ smaller ++ d ∷ larger
        → c ≡ some (d, fit_of o needs_vision avail d)
        → matches forced needs_vision d ≡ true
        → fit_of o needs_vision avail d ≢ pos 0
        → All NotOnGpu larger
        → Gpu roster c
    missing : c ≡ none → All NotOnGpu roster → Gpu roster c

  Gpu-step :
      (d : ModelDescriptor) (r : List ModelDescriptor)
      → Gpu r (largest_on_gpu o forced needs_vision avail r)
      → Gpu (d ∷ r) (largest_on_gpu o forced needs_vision avail (d ∷ r))
  unfolding largest_on_gpu
  Gpu-step d r (found smaller e larger p c m f l) =
      found (d ∷ smaller) e larger (rw p) (rw (c, largest_on_gpu)) m f l
  Gpu-step d r (missing c l) = elim (Bool-cases (matches forced needs_vision d)) [
    | inr out ↦ missing (rw (c, largest_on_gpu) (rw out)) (inl out, l)
    | inl in_play ↦ elim (eqb_ℤ-cases (fit_of o needs_vision avail d)) [
      | inl (test, e) ↦ missing (rw (c, largest_on_gpu) (rw (in_play, test))) (inr e, l)
      | inr (test, ne) ↦
          found [] d r refl (rw (c, largest_on_gpu) (rw (in_play, test))) in_play ne l
    ]
  ]

  Gpu-all : (r : List ModelDescriptor) → Gpu r (largest_on_gpu o forced needs_vision avail r)
  unfolding largest_on_gpu
  Gpu-all [] = missing refl tt
  Gpu-all (d ∷ r) = Gpu-step d r (Gpu-all r)

  data Cpu (roster : List ModelDescriptor) (c : Option (ModelDescriptor × ℤ)) : Type 0 where
    found :
        (smaller : List ModelDescriptor) (d : ModelDescriptor) (larger : List ModelDescriptor)
        → roster ≡ smaller ++ d ∷ larger
        → c ≡ some (d, pos 0)
        → matches forced needs_vision d ≡ true
        → overhead_fits o needs_vision avail d ≡ true
        → All NotOnCpu smaller
        → Cpu roster c
    missing : c ≡ none → All NotOnCpu roster → Cpu roster c

  Cpu-skip :
      (d : ModelDescriptor) (r : List ModelDescriptor)
      → NotOnCpu d
      → Cpu r (smallest_on_cpu o forced needs_vision avail r)
      → Cpu (d ∷ r) (smallest_on_cpu o forced needs_vision avail r)
  Cpu-skip d r n (Cpu.found smaller e larger p c m f l) =
      Cpu.found (d ∷ smaller) e larger (rw p) c m f (n, l)
  Cpu-skip d r n (Cpu.missing c l) = Cpu.missing c (n, l)

  Cpu-all : (r : List ModelDescriptor) → Cpu r (smallest_on_cpu o forced needs_vision avail r)
  unfolding smallest_on_cpu
  Cpu-all [] = Cpu.missing refl tt
  Cpu-all (d ∷ r) = elim (Bool-cases (matches forced needs_vision d)) [
    | inr out ↦ rw out (Cpu-skip d r (inl out) (Cpu-all r))
    | inl in_play ↦ elim (Bool-cases (overhead_fits o needs_vision avail d)) [
      | inl fits ↦ rw (in_play, fits) (Cpu.found [] d r refl refl in_play fits tt)
      | inr tight ↦ rw (in_play, tight) (Cpu-skip d r (inr tight) (Cpu-all r))
    ]
  ]

  admits :
      (roster : List ModelDescriptor)
      → Gpu roster (largest_on_gpu o forced needs_vision avail roster)
      → Cpu roster (smallest_on_cpu o forced needs_vision avail roster)
      → ltb_ℤ avail (pos 0) ≡ false
      → Admits roster (choose o forced needs_vision avail roster)
  unfolding choose
  admits roster (found smaller d larger p c m f l) _ known =
      on_gpu smaller d larger p (rw known (rw (c, choose))) m f l
  admits roster (missing c l) (Cpu.found smaller d larger p c' m f l') known =
      on_cpu smaller d larger p (rw known (rw (c, choose) c')) m f l l'
  admits roster (missing c l) (Cpu.missing c' l') known =
      refused (rw known (rw (c, choose) c')) l l'

  -- With a reading of the free VRAM, the decision is the largest usable tier that has a layer on the
  -- GPU; failing that the smallest usable one whose buffers fit; and a refusal only when there is
  -- neither.
  pub choose-Admits :
      (roster : List ModelDescriptor)
      → ltb_ℤ avail (pos 0) ≡ false
      → Admits roster (choose o forced needs_vision avail roster)
  choose-Admits roster known = admits roster (Gpu-all roster) (Cpu-all roster) known
