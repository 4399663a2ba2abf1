-- ===== src/Ziz/Parts.antt =====
-- internal/ziz/export.go: the files of the export, their names, and how one is written and read.
-- A directory is a table from the names in it to files. The calls of the packages os, gzip, bufio
-- and json that write a file are a script: each works, fails, or is the last that the process
-- makes. A rename moves a file in one step, as rename(2) does, and a failed call changes no other
-- file.
pub mod Names
pub mod Atomic
use web_scraper.Base.{
  ℕ, zero, suc, ◌+◌, ◌-◌, ◌*◌, ◌/◌, ◌%◌, Bool, true, false, not, ◌&&◌, ◌||◌, Option, none, some,
  List, [], ◌∷◌, ◌++◌, Text, codes, text_eq, is_empty, ltb, leb, ◌==◌, if◌then◌else◌, length, map,
  insertion_sort,
}
use web_scraper.Base.Dict.{lookup, insert, remove}
use web_scraper.Go.Strconv.{decimal}
use web_scraper.Go.Strings.{has_prefix, text_le}
use web_scraper.Ziz.Types.{WpPost, Article, Urls, article_from_wp}

abbrev pub zeros : ℕ → Text
zeros zero = []
zeros (suc n) = b'0' ∷ zeros n

-- %05d, for a number that is not negative
unfoldable pub five_digits : ℕ → Text
unfolding decimal
five_digits n = zeros (5 - length (decimal n n)) ++ decimal n n

-- `articlePartPath`, without the directory
unfoldable pub part_name : ℕ → Text
unfolding five_digits
part_name page = codes "part-" ++ five_digits page ++ codes ".jsonl.gz"

abbrev pub temporary : Text → Text
temporary name = name ++ codes ".tmp"

-- A file by what reading it gives: the articles before the end or an error, and whether it is the
-- end.
pub record File : Type 0 where
  pub articles : List Article
  pub ends_well : Bool

abbrev pub Files : Type 0
Files = List (Text × File)

-- What the conversion uses of other packages, with the base URL. `reread` is what encoding/json
-- decodes for an article that it has encoded.
pub record Packages : Type 1 where
  pub unescape : Text → Text
  pub urls : Urls
  pub base : urls.Url
  pub time_of : Text → Option Text
  pub reread : Article → Article

abbrev encoded : Packages → Text → WpPost → Article
encoded p now post = p.reread (article_from_wp p.unescape p.urls p.base p.time_of post now)

-- a part with all its articles
unfoldable pub whole_part : Packages → Text → List WpPost → File
whole_part p now posts = record { articles = map (encoded p now) posts; ends_well = true }

-- a file before gzip has written its end
abbrev pub unfinished : File
unfinished = record { articles = []; ends_well = false }

pub data Outcome : Type 0 where
  works fails dies : Outcome

pub data Call : Type 0 where
  create flush close_gzip sync close rename remove_temporary : Call
  encode : ℕ → Call

-- the directory as the call leaves it
pub data Written : Type 0 where
  written failed died : Files → Written

-- one call and then the rest
abbrev pub first_of : Outcome → Outcome → Outcome
first_of works rest = rest
first_of fails rest = fails
first_of dies rest = dies

-- the first outcome of a sequence of calls that ends it, or success
unfoldable pub in_turn : (Call → Outcome) → List Call → Outcome
in_turn script [] = works
in_turn script (c ∷ calls) = first_of (script c) (in_turn script calls)

-- the calls of the loop over the posts, from the n-th on
unfoldable pub encodes : ℕ → List WpPost → List Call
encodes n [] = []
encodes n (post ∷ posts) = encode n ∷ encodes (suc n) posts

-- the deferred function after an error, by the outcome of os.Remove
abbrev pub give_up : Outcome → Text → Files → Written
give_up works name files = failed (remove (temporary name) files)
give_up fails name files = failed files
give_up dies name files = died files

module _ (script : Call → Outcome) (name : Text) (part : File) where
  -- after the calls from file.Sync to os.Rename, by their outcome; `files` has the whole part under
  -- the temporary name
  abbrev pub renamed : Outcome → Files → Written
  renamed works files = written (insert name part (remove (temporary name) files))
  renamed fails files = give_up (script remove_temporary) name files
  renamed dies files = died files

  -- after the calls from the first Encode to gz.Close, by their outcome
  abbrev pub filled : Outcome → Files → Written
  filled works files =
      renamed (in_turn script (sync ∷ close ∷ rename ∷ [])) (insert (temporary name) part files)
  filled fails files = give_up (script remove_temporary) name files
  filled dies files = died files

  -- after os.Create, by its outcome
  abbrev pub created : Outcome → List WpPost → Files → Written
  created works posts files =
      filled (in_turn script (encodes 0 posts ++ flush ∷ close_gzip ∷ []))
        (insert (temporary name) unfinished files)
  created fails posts files = failed files
  created dies posts files = died files

unfoldable pub write_article_part :
    Packages → Text → (Call → Outcome) → Text → List WpPost → Files → Written
unfolding whole_part encodes in_turn
write_article_part p now script name posts files =
    created script name (whole_part p now posts) (script create) posts files

unfoldable pub has_suffix : Text → Text → Bool
has_suffix [] t = text_eq [] t
has_suffix (c ∷ s) t = text_eq (c ∷ s) t || has_suffix s t

-- the text after a prefix
abbrev pub after : Text → Text → Text
after [] s = s
after (c ∷ pre) [] = []
after (c ∷ pre) (d ∷ s) = after pre s

-- the pattern of filepath.Glob, part-*.jsonl.gz, on a name of the directory
unfoldable pub is_part : Text → Bool
unfolding has_suffix
is_part name =
    has_prefix name (codes "part-") && has_suffix (after (codes "part-") name) (codes ".jsonl.gz")
