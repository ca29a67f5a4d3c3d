-- ===== src/Stores/Tests.antt =====
-- The stores' theorems with a server of one short object.
use go_iroh_experiments.Base.{
  ◌≡◌, ◌≢◌, ◌+◌, ◌-◌, refl, true, false, [], none, some, arith, take, drop, Bytes, codes, equal,
}
use go_iroh_experiments.Go.Int.{pos}
use go_iroh_experiments.Stores.Http.{Api, Client, read_bytes, eof}
use go_iroh_experiments.Stores.Texts.{
  trim_left, trim_right, split_slash, nonempty, join_slash, response_size,
}
use go_iroh_experiments.Stores.Xet
use go_iroh_experiments.Stores.S3
use go_iroh_experiments.Stores.Reads.{ServesRanges, read_at-content}
use go_iroh_experiments.Stores.Imports
use go_iroh_experiments.Stores.Imports.{import_file-Holds}
use go_iroh_experiments.Stores.Urls
use go_iroh_experiments.Stores.Urls.{import_url-Holds}

abbrev content : Bytes
content = codes "abcdef"

-- It answers any request for the whole object or for a range of it.
abbrev server : Client
server q = elim q.range [
  | none ↦ some (record {
    status = 200;
    content_length = pos 6;
    linked_size = [];
    accept_ranges = codes "bytes";
    content_range = [];
    body = content;
    body_ok = true;
  })
  | some (start, end) ↦ some (record {
    status = 206;
    content_length = pos (end - start + 1);
    linked_size = [];
    accept_ranges = [];
    content_range = [];
    body = take (end - start + 1) (drop start content);
    body_ok = true;
  })
]

server-ServesRanges : (url token : Bytes) → ServesRanges server url token content
server-ServesRanges url token start end order inside = (_, refl, refl, refl)

-- The root of a content is its first two bytes; a URL is its path.
abbrev test_api : Api
test_api = record {
  encode = λ b. (b, take 2 b);
  parse_url = λ u. some (record { scheme = codes "https"; host = codes "h"; path = u });
  url_string = λ u. u.path;
  is_request = λ u. true;
  equal_fold = equal;
}

abbrev remote : Xet.HttpReaderAt
remote = record { url = codes "/o"; size = 6; client = server; token = codes "t" }

read_at-content_example : Xet.read_at test_api remote 4 (pos 3) ≡ (codes "def", some eof)
unfolding read_bytes
read_at-content_example =
    read_at-content test_api remote content 4 (pos 3) refl refl
      (server-ServesRanges (codes "/o") (codes "t")) (omega arith)

abbrev xet_store : Xet.Store
xet_store = record { entries = []; client = server; token = codes "t"; endpoint = codes "/e/" }

abbrev file : Xet.File
file = record { repo = codes "/a/b/"; revision = []; path = codes "c//d" }

abbrev file_url : Bytes
file_url = codes "/e/a/b/resolve/main/c/d"

file_resolves : Xet.resolve_url test_api xet_store file ≡ Xet.ok file_url
unfolding Xet.resolve_url equal trim_right join_slash Xet.file_segments nonempty split_slash
    trim_left
file_resolves = refl

file_imported : (Xet.import_file test_api xet_store file).1 ≡ Xet.ok (codes "ab")
unfolding Xet.import_file Xet.resolve_url equal Xet.import_url Xet.probe Xet.get_all Xet.imported
    Xet.probed response_size Xet.new_entry_from_remote
file_imported = refl

file_content : Xet.get_all test_api xet_store file_url ≡ Xet.ok content
unfolding Xet.get_all
file_content = refl

file_named : file_url ≢ []
file_named e = absurd (ground arith)

import_file-Holds_example :
    ((e : Xet.Entry) × (Xet.open_blob (Xet.import_file test_api xet_store file).0 (codes "ab")
        ≡ some e)
      × Imports.Holds test_api e content)
    × ((other : Bytes)
        → equal (codes "ab") other ≡ false
        → Xet.open_blob (Xet.import_file test_api xet_store file).0 other
          ≡ Xet.open_blob xet_store other)
import_file-Holds_example =
    import_file-Holds test_api xet_store file file_url content (codes "ab") file_imported
      file_resolves file_content file_named (server-ServesRanges file_url (codes "t"))

abbrev s3_store : S3.Store
s3_store = record { entries = []; client = server }

url_content : S3.get_url test_api s3_store file_url ≡ S3.ok content
unfolding S3.get_url
url_content = refl

import_url-Holds_example :
    ((S3.import_url test_api s3_store file_url).1 ≡ S3.ok (codes "ab"))
    × ((e : S3.Entry) × (S3.open_blob (S3.import_url test_api s3_store file_url).0 (codes "ab")
          ≡ some e)
        × Urls.Holds test_api e content)
    × ((other : Bytes)
        → equal (codes "ab") other ≡ false
        → S3.open_blob (S3.import_url test_api s3_store file_url).0 other
          ≡ S3.open_blob s3_store other)
import_url-Holds_example =
    import_url-Holds test_api s3_store file_url
      (record { scheme = codes "https"; host = codes "h"; path = file_url }) content refl
      url_content file_named (server-ServesRanges file_url [])
