-- ===== src/Examples/View.antt =====
-- `view` of dac-emulator/examples/dac_emulator_visualiser.rs: the line of text, and the shapes of the
-- path. The calls of the drawing library are left out, but for the shapes that they are given.
use ether_dream.Base.{
  ℕ, ◌-◌, ◌≡◌, refl, List, [], ◌∷◌, ◌++◌, All, ltb, not, ◌&&◌, ◌||◌, if◌then◌else◌, Option, none,
  some, Bool, true, false,
}
use ether_dream.Base.Int.{ℤ, pos}
use ether_dream.Base.Text.{codes}
use ether_dream.Protocol.{DacPoint}
use ether_dream.Examples.Wave.{F32}
use ether_dream.Examples.Visualiser.{Perceived, persistence_of_vision}

-- The colours that the text may have.
pub data Colour : Type 0 where
  white green red : Colour

-- The status in the bottom left: the text and its colour.
unfoldable pub status_text :
    {Addr : Type 0} → (show_addr : Addr → List ℕ) → Option Addr → Bool → List ℕ × Colour
status_text show_addr none underflowing = (codes "Awaiting connection...", white)
status_text show_addr (some addr) false =
    (codes "Connected" ++ codes "" ++ codes ": " ++ show_addr addr, green)
status_text show_addr (some addr) true =
    (codes "Connected" ++ codes " (underflowing!)" ++ codes ": " ++ show_addr addr, red)

-- What `view` takes from `f32` besides: comparisons, powers, literals, and a duration in seconds.
pub record Drawing (f : F32) : Type 0 where
  pub max : f.F → f.F → f.F
  pub is_equal : f.F → f.F → Bool
  pub pow : f.F → f.F → f.F
  pub as_secs : ℕ → f.F
  pub zero_point : f.F
  pub half : f.F
  pub quarter : f.F
  pub four : f.F
  pub five : f.F

module _ (f : F32) (d : Drawing f) where
  open f use {F, of_u32, of_i16, minus, times, over, one}

  pub record Point2 : Type 0 where
    pub x : F
    pub y : F

  pub record LinSrgb : Type 0 where
    pub red : F
    pub green : F
    pub blue : F

  unfoldable pub lightest : LinSrgb → LinSrgb → LinSrgb
  lightest a b = record {
    red = d.max a.red b.red;
    green = d.max a.green b.green;
    blue = d.max a.blue b.blue;
  }

  unfoldable pub is_black : LinSrgb → Bool
  is_black c =
      d.is_equal c.red d.zero_point
      && d.is_equal c.green d.zero_point
      && d.is_equal c.blue d.zero_point

  -- The luminosity of a point some nanoseconds after it was emitted.
  unfoldable pub fading : ℕ → F
  fading duration =
      let secs = d.as_secs duration in
      let most = d.as_secs persistence_of_vision in
      d.pow (d.max (minus one (over secs most)) d.zero_point) d.four

  unfoldable pub luminance : (now when : ℕ) → F
  unfolding fading
  luminance now when = if ltb when now then fading (now - when) else one

  pub record Vertex : Type 0 where
    pub at : Point2
    pub colour : LinSrgb

  module _ (width height : F) where
    unfoldable pub convert_point : DacPoint → F → Vertex
    convert_point pt lum =
        let t_x = λ (xi : ℤ). times (times (over (of_i16 xi) (of_i16 (pos 32767))) width) d.half in
        let t_y = λ (yi : ℤ). times (times (over (of_i16 yi) (of_i16 (pos 32767))) height) d.half in
        let t_color = λ (color : ℕ). over (of_u32 color) (of_u32 65535) in
        record {
          at = record { x = t_x pt.x; y = t_y pt.y };
          colour = record {
            red = times (t_color pt.r) lum;
            green = times (t_color pt.g) lum;
            blue = times (t_color pt.b) lum;
          };
        }

    -- What is drawn between two points: a dot if they coincide, and a line otherwise.
    pub data Shape : Type 0 where
      ellipse : (at : Point2) (rgb : LinSrgb) (radius : F) → Shape
      polyline : (weight : F) (a b : Vertex) → Shape

    unfoldable pub shape_between : F → Vertex → Vertex → List Shape
    unfolding lightest is_black
    shape_between lum a b =
        let weight = times d.five lum in
        if not (is_black a.colour) || not (is_black b.colour)
        then if d.is_equal a.at.x b.at.x && d.is_equal a.at.y b.at.y
          then ellipse a.at (lightest a.colour b.colour) (times weight d.half) ∷ []
          else polyline weight a b ∷ []
        else []

    shape_after : F → Vertex → Option Vertex → List Shape
    unfolding shape_between
    shape_after lum a none = []
    shape_after lum a (some b) = shape_between lum a b

    -- The loop over the points, with the last one.
    unfoldable pub draw_path : (now : ℕ) → Option Vertex → List Perceived → List Shape
    unfolding shape_after luminance convert_point
    draw_path now last_pt [] = []
    draw_path now last_pt (p ∷ ps) =
        let lum = luminance now p.when in
        let a = convert_point p.point (times lum d.quarter) in
        shape_after lum a last_pt ++ draw_path now (some a) ps

    -- A point that is drawn black.
    abbrev IsDark : ℕ → Perceived → Type 0
    IsDark now p =
        is_black (convert_point p.point (times (luminance now p.when) d.quarter)).colour ≡ true

    abbrev IsDarkVertex : Option Vertex → Type 0
    IsDarkVertex none = Unit {0}
    IsDarkVertex (some a) = is_black a.colour ≡ true

    shape_after-dark :
        (lum : F) (a : Vertex) (last_pt : Option Vertex)
        → is_black a.colour ≡ true
        → IsDarkVertex last_pt
        → shape_after lum a last_pt ≡ []
    unfolding shape_after shape_between
    shape_after-dark lum a none dark before = refl
    shape_after-dark lum a (some b) dark before = rw (dark, before) refl

    -- Between points that are all black nothing is drawn.
    draw_path-dark :
        (now : ℕ) (last_pt : Option Vertex) (ps : List Perceived)
        → IsDarkVertex last_pt
        → All (IsDark now) ps
        → draw_path now last_pt ps ≡ []
    unfolding draw_path
    draw_path-dark now last_pt [] before dark = refl
    draw_path-dark now last_pt (p ∷ ps) before (first, dark) =
        let lum = luminance now p.when in
        let a = convert_point p.point (times lum d.quarter) in
        rw (shape_after-dark lum a last_pt first before) (draw_path-dark now (some a) ps first dark)
