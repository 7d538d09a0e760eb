-- ===== src/Isp/Angles.antt =====
-- The angles of a pixel (cgo/isp.c), where the arithmetic of `float` is exact enough: opposite
-- differences are opposite, and so are their products.
use hardware_os.Base.{◌≡◌, ◌∙◌, ap}
use hardware_os.Base.Float.{FloatOps}
use hardware_os.Isp.Info.{isp_calculate_azimuth, isp_calculate_elevation}

-- The laws of `float` that the symmetry rests on: negation is exact.
pub record IsSymmetric {F : Type 0} (fl : FloatOps F) (negate : F → F) : Type 0 where
  pub swap : (a b : F) → fl.minus b a ≡ negate (fl.minus a b)
  pub out : (a b : F) → fl.times (negate a) b ≡ negate (fl.times a b)

-- A pixel's elevation is the negative of the azimuth that its coordinate would have: to the right
-- angles grow, and downwards they fall.
elevation-azimuth :
    {F : Type 0} (fl : FloatOps F) (negate : F → F)
    → IsSymmetric fl negate
    → (x fov : F) → isp_calculate_elevation fl x fov ≡ negate (isp_calculate_azimuth fl x fov)
unfolding isp_calculate_azimuth isp_calculate_elevation
elevation-azimuth fl negate law x fov =
    ap (λ t. fl.times t fov) (law.swap x (fl.literal 1 2))
    ∙ law.out (fl.minus x (fl.literal 1 2)) fov
