-- ===== src/Geospatial.antt =====
-- domain/geospatial.py: distances and boxes on the sphere.
use fireviewer_backend.Doubles.{Doubles}
use fireviewer_backend.Prelude.{max, min, ℕ}

pub record BoundingBox : Type 0 where
  pub min_lon : ℕ
  pub max_lon : ℕ
  pub min_lat : ℕ
  pub max_lat : ℕ

module _ (F : Doubles) where
  open F use {
    literal, negate, absolute, squared, add, subtract, multiply, divide, hypot, sin, cos, asin,
    sqrt, radians,
  }

  abbrev earth_radius_m : ℕ
  earth_radius_m = literal "6371008.8"

  abbrev meters_per_degree_lat : ℕ
  meters_per_degree_lat = literal "111320.0"

  unfoldable pub haversine_m : ℕ → ℕ → ℕ → ℕ → ℕ
  haversine_m lon1 lat1 lon2 lat2 =
      let phi1 = radians lat1 in
      let phi2 = radians lat2 in
      let d_phi = radians (subtract lat2 lat1) in
      let d_lambda = radians (subtract lon2 lon1) in
      let a = add (squared (sin (divide d_phi (literal "2.0")))) (
        multiply (multiply (cos phi1) (cos phi2))
          (squared (sin (divide d_lambda (literal "2.0"))))) in
      multiply (multiply (literal "2.0") earth_radius_m) (asin (min (literal "1.0") (sqrt a)))

  unfoldable pub combine_uncertainties_m : ℕ → ℕ → ℕ
  combine_uncertainties_m first_m second_m = hypot first_m second_m

  unfoldable pub bbox_for_point : ℕ → ℕ → ℕ → BoundingBox
  bbox_for_point lon lat radius_m =
      let lat_delta = divide radius_m meters_per_degree_lat in
      let cos_lat = max (absolute (cos (radians lat))) (literal "0.01") in
      let lon_delta = divide radius_m (multiply meters_per_degree_lat cos_lat) in
      record {
        min_lon = max (negate (literal "180.0")) (subtract lon lon_delta);
        max_lon = min (literal "180.0") (add lon lon_delta);
        min_lat = max (negate (literal "90.0")) (subtract lat lat_delta);
        max_lat = min (literal "90.0") (add lat lat_delta);
      }
