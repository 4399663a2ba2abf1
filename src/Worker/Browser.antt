-- ===== src/Worker/Browser.antt =====
-- internal/browser/client.go: `Scrape`, from what the request and the JSON decoder give.
use web_scraper.Base.{ℕ, ◌/◌, not, List, [], ◌∷◌, ◌++◌, Text, codes, ◌==◌, if◌then◌else◌}
use web_scraper.Go.Strconv.{decimal}
use web_scraper.Model.{Listing}
use web_scraper.Worker.{Scrape, listings, scrape_failed}

-- an error of the request or of the decoder, or the status with the body's listings and error
pub data Answer : Type 0 where
  no_request no_answer not_json : Text → Answer
  answered : ℕ → List Listing → Text → Answer

abbrev or_none_returned : List Listing → Scrape
or_none_returned [] = scrape_failed (codes "browser worker returned no listings")
or_none_returned (item ∷ items) = listings (item ∷ items)

unfoldable scrape : Answer → Scrape
unfolding decimal
scrape (no_request message) = scrape_failed message
scrape (no_answer message) = scrape_failed message
scrape (not_json message) = scrape_failed message
scrape (answered status found error) =
    if not (status / 100 == 2)
    then scrape_failed
        (codes "browser worker status " ++ decimal status status ++ codes ": " ++ error)
    else or_none_returned found
