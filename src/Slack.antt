-- ===== src/Slack.antt =====
-- internal/slack/client.go. Slack itself is the parameter `respond`: its answer to a request may
-- depend on the requests before it.
use alertory.Prelude.{
  Bool, true, false, List, [], ◌∷◌, ◌&&◌, not, Option, none, some, ◌++◌, if◌then◌else◌,
}
use alertory.Text.{Str, str}

pub record Field : Type 0 where
  pub title : Str
  pub value : Str
  pub short : Bool

pub record Attachment : Type 0 where
  pub color : Str
  pub title : Str
  pub fields : List Field

pub record PostResult : Type 0 where
  pub channel : Str
  pub ts : Str

-- The URL and the JSON payload of a call; `ts` is left out of the payload if it is empty.
pub record Request : Type 0 where
  pub token : Str
  pub url : Str
  pub channel : Str
  pub text : Str
  pub attachments : List Attachment
  pub ts : Option Str

-- What comes back: an error of the HTTP client or of the decoder, or the decoded result.
pub data Response : Type 0 where
  broken : Str → Response
  decoded : Bool → Str → Str → Str → Response

pub data Sent : Type 0 where
  delivered : PostResult → Sent
  failed : Str → Sent

-- The requests so far, the newest first.
abbrev pub Log : Type 0
Log = List Request

abbrev pub Respond : Type 0
Respond = Log → Request → Response

abbrev pub post_url : Str
post_url = str "https://slack.com/api/chat.postMessage"

abbrev pub update_url : Str
update_url = str "https://slack.com/api/chat.update"

unfoldable pub is_empty {ℓ} : {A : Type ℓ} → List A → Bool
is_empty [] = true
is_empty (x ∷ xs) = false

unfoldable pub read_response : Response → Sent
read_response (broken error) = failed error
read_response (decoded ok error channel ts) =
    if ok
    then delivered (record { channel = channel; ts = ts })
    else failed (str "slack API error: " ++ error)

unfoldable pub make_request : Str → Str → Str → Str → Str → List Attachment → Request
unfolding is_empty
make_request token url channel ts text attachments = record {
  token = token;
  url = url;
  channel = channel;
  text = if is_empty text && not (is_empty attachments) then str " " else text;
  attachments = attachments;
  ts = if is_empty ts then none else some ts;
}

module _ (respond : Respond) where
  unfoldable pub send : Str → Str → Str → Str → Str → List Attachment → Log → Sent × Log
  unfolding read_response is_empty
  send token url channel ts text attachments log =
      if is_empty token
      then (failed (str "no Slack token configured"), log)
      else (let request = make_request token url channel ts text attachments in
          (read_response (respond log request), request ∷ log))

  -- Post
  unfoldable pub post : Str → Str → Str → List Attachment → Log → Sent × Log
  post token channel text attachments log = send token post_url channel [] text attachments log

  -- Update; only its error is used.
  unfoldable pub update : Str → Str → Str → Str → List Attachment → Log → Option Str × Log
  update token channel ts text attachments log =
      let (sent, log') = send token update_url channel ts text attachments log in
      (elim sent [ delivered result ↦ none | failed error ↦ some error ], log')
