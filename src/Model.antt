-- ===== src/Model.antt =====
-- internal/model/model.go: the values that the API, the store and the workers exchange.
-- A time is a number of microseconds, the precision that Postgres keeps. A `*T` is an `Option`.
use web_scraper.Base.{ℕ, Bool, Option, List, Text}
use web_scraper.Base.Int.{ℤ}

-- A float64 is its bit pattern; the program stores ratings and compares them, and no more.
abbrev pub Float64 : Type 0
Float64 = ℕ

pub record SearchRequest : Type 0 where
  pub marketplace : Text
  pub query : Text
  pub limit : ℤ
  pub wait_ms : Option ℤ

pub record Listing : Type 0 where
  pub marketplace : Text
  pub external_id : Text
  pub title : Text
  pub url : Text
  pub image_url : Text
  pub seller : Text
  pub price_minor : Option ℤ
  pub original_price_minor : Option ℤ
  pub ship_minor : Option ℤ
  pub currency : Text
  pub available : Option Bool
  pub rating : Option Float64
  pub review_count : Option ℤ
  pub sold_count : Option ℤ
  pub sponsored : Option Bool

-- The four values that the column's CHECK allows.
pub data Status : Type 0 where
  queued running complete failed : Status

pub record Job : Type 0 where
  pub id : Text
  pub marketplace : Text
  pub query : Text
  pub limit : ℤ
  pub status : Status
  pub worker_id : Text
  pub error : Text
  pub result : List Listing
  pub created_at : ℕ
  pub finished_at : Option ℕ

pub record Worker : Type 0 where
  pub id : Text
  pub last_seen : ℕ
  pub capabilities : List Text

pub record PricePoint : Type 0 where
  pub observed_at : ℕ
  pub price_minor : Option ℤ
  pub original_price_minor : Option ℤ
  pub ship_minor : Option ℤ
  pub currency : Text
  pub available : Option Bool
  pub rating : Option Float64
  pub review_count : Option ℤ
  pub sold_count : Option ℤ
  pub sponsored : Option Bool
  pub source : Text
