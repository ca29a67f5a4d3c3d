-- ===== src/Discovery/Tracker.antt =====
-- contentdiscovery/tracker.go: one request to the tracker.
pub mod Verified
use go_iroh_experiments.Base.{
  ℕ, Bool, true, false, not, List, [], Option, none, some, ltb, if◌then◌else◌, length, Bytes,
}
use go_iroh_experiments.Discovery.Api.{Api}
use go_iroh_experiments.Discovery.Protocol.{SignedAnnounce, Query}
use go_iroh_experiments.Discovery.Store.{Store, put_announce, query, verify_signed_announce}

abbrev pub request_size_limit : ℕ
request_size_limit = 16384

-- What postcard.Unmarshal makes of the bytes; another kind is an error of the decoder.
pub data Request : Type 0 where
  request_announce : SignedAnnounce → Request
  request_query : Query → Request

pub data TrackerError : Type 0 where
  too_large : TrackerError
  bad_request : TrackerError
  invalid_signature : TrackerError
  unsupported : TrackerError

-- The hosts of the response, or the error.
pub data Reply : Type 0 where
  hosts : List SignedAnnounce → Reply
  failed : TrackerError → Reply

module _ (api : Api) (unmarshal : Bytes → Option Request) where
  unfoldable pub handle_announce : Store → SignedAnnounce → Store × Reply
  handle_announce s sa =
      if not (verify_signed_announce api sa)
      then (s, failed invalid_signature)
      else elim (put_announce s sa) [ none ↦ (s, failed unsupported) | some s2 ↦ (s2, hosts []) ]

  -- The switch of `HandleRequest`
  unfoldable pub handle_kind : Store → Request → Store × Reply
  handle_kind s (request_announce sa) = handle_announce s sa
  handle_kind s (request_query q) = (s, hosts (query api s q))

  unfoldable pub handle_request : Store → Bytes → Store × Reply
  handle_request s message =
      if ltb request_size_limit (length message)
      then (s, failed too_large)
      else elim (unmarshal message) [
        | none ↦ (s, failed bad_request)
        | some request ↦ handle_kind s request
      ]
