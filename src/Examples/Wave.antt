-- ===== src/Examples/Wave.antt =====
-- `SineWave` of ether-dream/examples/dac_stream.rs: the endless iterator of points. `f32` is a
-- parameter: a type with the operations that the iterator takes from it.
use native.Mathlib.Decide.{dec_lt}
use ether_dream.Base.{
  ◌++◌, length-append, All-append, get_elem?-append_left, get_elem?-append_right, ℕ, zero, suc, ◌+◌,
  ◌-◌, ◌%◌, ◌^◌, ◌<◌, ◌≡◌, ◌∙◌, refl, sym, ap, arith, List, [], ◌∷◌, All, get_elem?, length, ltb,
  ◌==◌, ◌||◌, if◌then◌else◌, Option, none, some, Bool,
}
use ether_dream.Base.Int.{ℤ, pos, negsuc, IsI16}
use ether_dream.Protocol.{DacPoint}
use ether_dream.Protocol.Layout.{IsPoint}

pub record F32 : Type 1 where
  pub F : Type 0
  pub of_u32 : ℕ → F
  pub of_i16 : ℤ → F
  pub plus : F → F → F
  pub minus : F → F → F
  pub times : F → F → F
  pub over : F → F → F
  pub sin : F → F
  pub one : F
  pub two : F
  pub pi : F
  pub to_i16 : F → ℤ
  pub to_u16 : F → ℕ

-- What a cast to an `i16` gives is one.
abbrev pub CastsInRange : F32 → Type 0
CastsInRange f = (a : f.F) → IsI16 (f.to_i16 a)

-- `std::i16::MIN` and `std::i16::MAX`; `std::u16::MAX`.
abbrev x_min : ℤ
x_min = negsuc 32767

abbrev x_max : ℤ
x_max = pos 32767

abbrev full : ℕ
full = 65535

module _ (f : F32) where
  open f use {F, of_u32, of_i16, plus, minus, times, over, sin, one, two, pi, to_i16}

  pub record SineWave : Type 0 where
    pub point : ℕ
    pub points_per_frame : ℕ
    pub frames_per_second : F

  -- The first points of a frame, and the last, are dark.
  abbrev pub is_blank : ℕ → ℕ → Bool
  is_blank coloured_points_per_frame i = i == coloured_points_per_frame || ltb i 13

  -- The point at the counter. In the source the subtraction is on a `u16`, and is only reached with a
  -- positive number of points to a frame.
  unfoldable pub wave_point : SineWave → DacPoint
  wave_point self =
      let coloured_points_per_frame = self.points_per_frame - 1 in
      let i = self.point % self.points_per_frame in
      let hz = one in
      let fract = over (of_u32 i) (of_u32 coloured_points_per_frame) in
      let phase =
        over (over (of_u32 self.point) (of_u32 coloured_points_per_frame)) self.frames_per_second in
      let amp = sin (times (times (times hz (plus fract phase)) two) pi) in
      let colour : ℕ = if is_blank coloured_points_per_frame i then 0 else full in
      record {
        control = 0;
        x = to_i16 (plus (of_i16 x_min) (times fract (minus (of_i16 x_max) (of_i16 x_min))));
        y = to_i16 (times amp (of_i16 x_max));
        i = i;
        r = colour;
        g = colour;
        b = colour;
        u1 = 0;
        u2 = 0;
      }

  -- The counter after a point; it wraps as in a release build.
  unfoldable pub advance : SineWave → SineWave
  advance self = record self { point = (self.point + 1) % 2 ^ 32 }

  -- `Iterator::next`, which panics on a remainder by 0; otherwise there always is a point.
  unfoldable pub next : SineWave → Option (DacPoint × SineWave)
  unfolding wave_point advance
  next self = if self.points_per_frame == 0 then none else some (wave_point self, advance self)

  -- `by_ref().take(n)` read to its end: the points, and the iterator that is left.
  unfoldable pub take_points : ℕ → SineWave → Option (List DacPoint × SineWave)
  take_points zero w = some ([], w)
  take_points (suc n) w = elim (next w) [
    | none ↦ none
    | some (pt, w') ↦ elim (take_points n w') [
      | none ↦ none
      | some (pts, w'') ↦ some (pt ∷ pts, w'')
    ]
  ]

  -- The iterator some points on.
  abbrev pub ahead : ℕ → SineWave → SineWave
  ahead k w = record w { point = (w.point + k) % 2 ^ 32 }

  -- A wave with frames, whose counters are in the ranges of their types.
  pub record IsWave (w : SineWave) : Type 0 where
    pub point : w.point < 2 ^ 32
    pub has_frames : 0 < w.points_per_frame
    pub points_per_frame : w.points_per_frame < 2 ^ 16

  pub ahead-IsWave : (k : ℕ) {w : SineWave} → IsWave w → IsWave (ahead k w)
  ahead-IsWave k h = record {
    point = omega arith;
    has_frames = h.has_frames;
    points_per_frame = h.points_per_frame;
  }

  next_lem : (w : SineWave) → IsWave w → next w ≡ some (wave_point w, ahead 1 w)
  unfolding next advance
  next_lem w h = ground arith

  ahead-ahead : (k : ℕ) (w : SineWave) → ahead k (ahead 1 w) ≡ ahead (suc k) w
  ahead-ahead k w =
      let e : ((w.point + 1) % 2 ^ 32 + k) % 2 ^ 32 ≡ (w.point + suc k) % 2 ^ 32 = omega arith in
      ap (λ (p : ℕ). record w { point = p }) e

  pub ahead-zero : (w : SineWave) → IsWave w → ahead 0 w ≡ w
  ahead-zero w h =
      let e : (w.point + 0) % 2 ^ 32 ≡ w.point = omega (arith, h.point) in
      ap (λ (p : ℕ). record w { point = p }) e

  wave_point-IsPoint : CastsInRange f → (w : SineWave) → IsWave w → IsPoint (wave_point w)
  unfolding wave_point
  wave_point-IsPoint casts w h = record {
    control = omega arith;
    x = casts _;
    y = casts _;
    r = ground arith;
    g = ground arith;
    b = ground arith;
    i = grind (arith, h.has_frames, h.points_per_frame);
    u1 = omega arith;
    u2 = omega arith;
  }

  -- `points` are the `n` points from `w` on: each is the wave's point at its own counter.
  pub record AreWave (w : SineWave) (n : ℕ) (points : List DacPoint) : Type 0 where
    pub as_many : length points ≡ n
    pub in_range : All IsPoint points
    pub at : (k : ℕ) → k < n → get_elem? points k ≡ some (wave_point (ahead k w))

  pub AreWave-none : (w : SineWave) → AreWave w 0 []
  AreWave-none w = record { as_many = refl; in_range = tt; at = λ k lt. absurd (omega arith) }

  AreWave-next :
      (w : SineWave) (n : ℕ) (points : List DacPoint)
      → IsWave w
      → IsPoint (wave_point w)
      → AreWave (ahead 1 w) n points
      → AreWave w (suc n) (wave_point w ∷ points)
  AreWave-next w n points h first rest = record {
    as_many = ap suc rest.as_many;
    in_range = (first, rest.in_range);
    at = at;
  }
    where
      at : (k : ℕ) → k < suc n → get_elem? (wave_point w ∷ points) k ≡ some (wave_point (ahead k w))
      at zero lt = ap (λ v. some (wave_point v)) (sym (ahead-zero w h))
      at (suc k) lt = rest.at k (omega arith) ∙ ap (λ v. some (wave_point v)) (ahead-ahead k w)

  take_points-next :
      (n : ℕ) (w : SineWave) {pt : DacPoint} {points : List DacPoint} {w' w'' : SineWave}
      → next w ≡ some (pt, w')
      → take_points n w' ≡ some (points, w'')
      → take_points (suc n) w ≡ some (pt ∷ points, w'')
  unfolding take_points
  take_points-next n w h rest = ground arith

  -- Taking points from a wave whose frames are not empty does not panic, and yields as many as
  -- were asked for: the points at the next counters, which wrap, all with fields in range. The
  -- iterator goes on behind the last of them. The wave's counters are in the ranges of their
  -- types, and a cast to `i16` gives one.
  pub take_points_lem :
      CastsInRange f
      → (n : ℕ) (w : SineWave) → IsWave w
      → (points : List DacPoint) × (take_points n w ≡ some (points, ahead n w)) × AreWave w n points
  unfolding take_points
  take_points_lem casts zero w h = ([], rw (ahead-zero w h) refl, AreWave-none w)
  take_points_lem casts (suc n) w h =
      let (points, takes, are) = take_points_lem casts n (ahead 1 w) (ahead-IsWave 1 h) in
      (
        wave_point w ∷ points,
        take_points-next n w (next_lem w h) takes
            ∙ ap (λ v. some (wave_point w ∷ points, v)) (ahead-ahead n w),
        AreWave-next w n points h (wave_point-IsPoint casts w h) are,
      )

  pub ahead_add : (n k : ℕ) (w : SineWave) → ahead k (ahead n w) ≡ ahead (n + k) w
  ahead_add n k w =
      let e : ((w.point + n) % 2 ^ 32 + k) % 2 ^ 32 ≡ (w.point + (n + k)) % 2 ^ 32 = omega arith in
      ap (λ (p : ℕ). record w { point = p }) e

  -- The points of a wave, and the ones that follow.
  pub AreWave-append :
      (w : SineWave) (n m : ℕ) (points others : List DacPoint)
      → AreWave w n points
      → AreWave (ahead n w) m others
      → AreWave w (n + m) (points ++ others)
  AreWave-append w n m points others h h' = record {
    as_many = omega (arith, h.as_many, h'.as_many, length-append points others);
    in_range = All-append IsPoint points others h.in_range h'.in_range;
    at = at;
  }
    where
      at : (k : ℕ) → k < n + m → get_elem? (points ++ others) k ≡ some (wave_point (ahead k w))
      at k lt = elim (dec_lt k n) [
        | yes inside ↦
            get_elem?-append_left points others k (omega (arith, h.as_many)) ∙ h.at k inside
        | no past ↦
            let k' = k - n in
            let shifted : k ≡ n + k' = omega arith in
            let behind : k ≡ length points + k' = omega (arith, h.as_many) in
            ap (get_elem? (points ++ others)) behind
            ∙ get_elem?-append_right points others k'
            ∙ h'.at k' (omega arith)
            ∙ ap (λ v. some (wave_point v)) (ahead_add n k' w)
            ∙ ap (λ j. some (wave_point (ahead j w))) (sym shifted)
      ]
