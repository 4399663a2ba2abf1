-- ===== src/Examples/Catalogue.antt =====
-- Runs of the catalogue.
use web_scraper.Store.Db.{Db, up}
use web_scraper.Store.Catalogue.{new_product}
use web_scraper.Store.Complete.Outcome.{healthy}
use web_scraper.Store.Lifecycle.{Op, finish, prune, run}
use web_scraper.Store.Lifecycle.Stocked.{IsSound, run-IsSound}
use web_scraper.Base.{refl, List, ℕ, ◌≡◌, inl, ap, Option, none, some, [], ◌∷◌, ◌++◌, arith}
use web_scraper.Base.Int.{ℤ, pos, pos_part}
use web_scraper.Model.{Listing}
use web_scraper.Store.Catalogue.{new_observation, record_observation}
use web_scraper.Store.Catalogue.Observations.{record_observation-change}
use web_scraper.Examples.Data.{server, item, db, hash, held}

-- the same offer at another price
abbrev dearer : Listing
dearer = record item { price_minor = some (pos 600) }

abbrev amount : Option ℤ → ℕ
amount none = 0
amount (some x) = pos_part x

record_observation-change_example :
    let stored = new_observation 1 5 1000 item ∷ [] in
    record_observation server (new_observation 1 6 2000 dearer) stored
    ≡ stored ++ new_observation 1 6 2000 dearer ∷ []
record_observation-change_example =
    record_observation-change server 1 5 6 1000 2000 item dearer [] (λ x m. elim m [ ])
      (inl (λ e. omega (arith, ap amount e)))

-- one product with one price
abbrev shop : Db
shop = record db {
  products = new_product 1 1000 item ∷ [];
  observations = new_observation 1 5 1000 item ∷ [];
}

shop-IsSound : IsSound shop
unfolding new_product new_observation
shop-IsSound = record {
  ids = (tt, tt);
  keys = (tt, tt);
  observed = ((new_product 1 1000 item, inl refl, refl), tt);
}

-- a job that finds the product at another price, and then a prune
abbrev calls : List Op
calls = finish healthy up 950 held (dearer ∷ []) ∷ prune up 2000 60 ∷ []

run-IsSound_example : IsSound (run server hash calls shop)
run-IsSound_example = run-IsSound server hash calls shop shop-IsSound
