-- ===== src/Tests/Post.antt =====
-- A witness for the POST: a newer POST of an object that is to be deleted.
use swiftacular.Base.{
  ℕ, ◌≡◌, refl, true, false, Option, none, List, [], ◌∷◌, String, str_eq, arith, Dict, lookup, suc,
  fields,
}
use swiftacular.Server.{Flow, go, delete_at}
use swiftacular.Server.Handler.{Step, run}
use swiftacular.Server.Rules.{Rules, int_of, copied_keys, is_spared}
use swiftacular.Server.Content.{Posting, Opened, time_of, ctype_time}
use swiftacular.Server.Post.{Accepted, opened, post}
use swiftacular.Server.Post.Stored.{IsWhole}
use swiftacular.Server.Post.Posted.{Posted, post-Posted}
use swiftacular.Tests.Instance.{parse_size, size, letters}
use swiftacular.Tests.Updates.{remote, sysmeta_prefix}

abbrev parse : String → Option ℕ
parse text = parse_size (size text)

abbrev pub rules : Rules
rules = record {
  remote = remote;
  parse = parse;
  int = parse;
  of_int = λ n. n;
  internal = λ t. letters (suc t);
  is_transient = λ key. str_eq key "X-Object-Meta-Colour";
  is_sys_meta = λ key. false;
  caps = λ key. key;
  allowed_headers = "X-Delete-At" ∷ [];
  sysmeta_prefix = sysmeta_prefix;
  swift_bytes = λ ctype. "";
}

-- At time 7, with the time of deletion 9, over an object of time 4.
abbrev request : Posting
request = record {
  timestamp = 7;
  headers =
      ("X-Object-Meta-Colour", "red")
      ∷ ("X-Delete-At", "xxxxxxxxxx")
      ∷ ("Content-Type", "text/plain")
      ∷ [];
  has_device = true;
  has_space = true;
}

abbrev file : Opened
file = record {
  metadata =
      ("X-Timestamp", "xxxxx")
      ∷ ("Content-Length", "2")
      ∷ ("ETag", "e")
      ∷ ("X-Delete-At", "xxxxxx")
      ∷ [];
  content_type = "text/html";
  content_type_timestamp = 4;
  data_timestamp = 4;
  datafile_metadata = ("Content-Type", "text/html") ∷ [];
  metafile_metadata = none;
}

whole : IsWhole rules file
unfolding lookup
whole = record {
  size = "2";
  etag = "e";
  ctype = "text/html";
  has_size = refl;
  has_etag = refl;
  has_ctype = refl;
}

deleted_at : int_of rules (lookup "X-Delete-At" request.headers) ≡ go 9
unfolding lookup delete_at
deleted_at = refl

was_deleted_at : int_of rules (lookup "X-Delete-At" file.metadata) ≡ go 5
unfolding lookup delete_at
was_deleted_at = refl

timed : time_of rules file.metadata ≡ go 4
unfolding time_of lookup
timed = refl

typed : ctype_time rules request ≡ go 7
unfolding ctype_time lookup
typed = refl

copies : is_spared rules "X-Timestamp" (copied_keys rules request.headers) ≡ true
unfolding copied_keys fields lookup
copies = refl

post-Posted_example :
    (metadata : Dict String) × (steps : List Step) × (flow : Flow (Accepted rules)) × (post rules
        request
        (opened file)
      ≡ run steps flow)
    × Posted rules request 9 file 4 7 5 "" metadata steps flow
post-Posted_example =
    post-Posted rules request 9 file 4 7 5 "" refl deleted_at refl timed typed was_deleted_at whole
      refl copies (λ h. absurd (ground arith))
