-- ===== src/Warehouse/Requests.antt =====
-- `Request.request_id` of model.py determines the request.
use power_market_data_platfo.Base.{
  ℕ, zero, suc, ◌+◌, ◌/◌, ◌%◌, ◌^◌, ◌≡◌, refl, arith, [], ◌∷◌, ◌++◌, All-append, ◌<◌, Text, codes,
  Dict,
}
use power_market_data_platfo.Time.Calendar.{pad, date_text}
use power_market_data_platfo.Identity.Json.{sort_keys}
use power_market_data_platfo.Identity.Json.Injective.{IsBasic, IsBasicDict, basic}
use power_market_data_platfo.Identity.Digest.{IsCollisionFree, payload, digest_injective}
use power_market_data_platfo.Warehouse.Request.{
  Product, Request, request_id, product_text, or_empty,
}

pad-IsBasic : (w n : ℕ) → IsBasic (pad w n)
pad-IsBasic zero n = tt
pad-IsBasic (suc w) n = (digit (n / 10 ^ w), pad-IsBasic w n)
  where
    digit : (m : ℕ) → m % 10 + 48 < 65536
    digit m = omega arith

parts-IsBasic : (y m d : ℕ) → IsBasic (pad 4 y ++ (b'-' ∷ pad 2 m) ++ (b'-' ∷ pad 2 d))
parts-IsBasic y m d =
    let day : IsBasic (b'-' ∷ pad 2 d) = (omega arith, pad-IsBasic 2 d) in
    let month : IsBasic (b'-' ∷ pad 2 m) = (omega arith, pad-IsBasic 2 m) in
    All-append (λ c. c < 65536) (pad 4 y) ((b'-' ∷ pad 2 m) ++ (b'-' ∷ pad 2 d)) (pad-IsBasic 4 y)
      (All-append (λ c. c < 65536) (b'-' ∷ pad 2 m) (b'-' ∷ pad 2 d) month day)

date_text-IsBasic : (d : ℕ) → IsBasic (date_text d)
unfolding date_text
date_text-IsBasic d = parts-IsBasic _ _ _

product_text-IsBasic : (p : Product) → IsBasic (product_text p)
product_text-IsBasic Product.lmp = basic (codes "lmp") refl
product_text-IsBasic Product.load = basic (codes "load") refl

product_text_injective : (p q : Product) → product_text p ≡ product_text q → p ≡ q
product_text_injective Product.lmp Product.lmp e = refl
product_text_injective Product.load Product.load e = refl
product_text_injective Product.lmp Product.load e = cc e
product_text_injective Product.load Product.lmp e = cc e

abbrev request_fields : Request → Dict Text
request_fields r =
    (codes "source", codes "CAISO")
    ∷ (codes "product", product_text r.product)
    ∷ (codes "date", date_text r.day)
    ∷ (codes "location", or_empty r.location)
    ∷ []

request_fields-IsBasicDict :
    (r : Request)
    → IsBasic (or_empty r.location)
    → IsBasicDict (payload (codes "bounded-request/v1") (request_fields r))
request_fields-IsBasicDict r h = (
  (basic (codes "schema") refl, basic (codes "bounded-request/v1") refl),
  (
    (basic (codes "source") refl, basic (codes "CAISO") refl),
    (
      (basic (codes "product") refl, product_text-IsBasic r.product),
      (
        (basic (codes "date") refl, date_text-IsBasic r.day),
        ((basic (codes "location") refl, h), tt),
      ),
    ),
  ),
)

module _ (sha256 : Text → Text) (free : IsCollisionFree sha256) where
  -- Under a hash without collisions, two requests with one request ID are of the same product, the
  -- same date as text, and the same location, if these are texts in the basic plane, where none
  -- counts as the empty text.
  pub request_id_injective :
      (r q : Request)
      → IsBasic (or_empty r.location)
      → IsBasic (or_empty q.location)
      → request_id sha256 r ≡ request_id sha256 q
      → (r.product ≡ q.product)
        × (date_text r.day ≡ date_text q.day)
        × (or_empty r.location ≡ or_empty q.location)
  unfolding request_id sort_keys
  request_id_injective r q hr hq e =
      let fields =
        digest_injective sha256 free (codes "bounded-request/v1") (codes "bounded-request/v1")
          (request_fields r) (request_fields q) (request_fields-IsBasicDict r hr)
          (request_fields-IsBasicDict q hq) e in
      (product_text_injective r.product q.product (cc fields), cc fields, cc fields)
