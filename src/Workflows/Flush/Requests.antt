-- ===== src/Workflows/Flush/Requests.antt =====
-- The requests to Slack that a bucket makes, field by field.
use alertory.Prelude.{
  false, not, ◌&&◌, List, [], ◌∷◌, All, Option, none, some, if◌then◌else◌, ◌≡◌, refl, ◌∙◌, ap,
}
use alertory.Text.{Str, str}
use alertory.Map.{Map, get}
use alertory.Slack.{Attachment, Respond, Request, Log, is_empty, make_request}
use alertory.Db.Member.{NotifiedTarget}
use alertory.Workflows.Flush.{Delivery, deliver}
use alertory.Workflows.Flush.Deliver.{call_for, calls_for, deliver_log}

-- A new message goes to the channel, by chat.postMessage and without a timestamp.
abbrev pub posted : Str → Str → List Attachment → Str → Request
posted token text attachments ch = record {
  token = token;
  url = str "https://slack.com/api/chat.postMessage";
  channel = ch;
  text = text;
  attachments = attachments;
  ts = none;
}

-- An edit names the message by its timestamp and by the channel that Slack answered with, or else
-- that of the rule, by chat.update.
abbrev pub edited : Str → Str → List Attachment → NotifiedTarget → Request
edited token text attachments t = record {
  token = token;
  url = str "https://slack.com/api/chat.update";
  channel = if is_empty t.api_channel then t.channel else t.api_channel;
  text = text;
  attachments = attachments;
  ts = some t.ts;
}

-- Slack takes no message without a text, so one of attachments has a space for it.
abbrev pub text_of : Str → List Attachment → Str
text_of [] [] = []
text_of [] (a ∷ attachments) = str " "
text_of (c ∷ text) attachments = c ∷ text

abbrev pub request_for : Str → Str → List Attachment → Option NotifiedTarget → Str → Request
request_for token text attachments none ch = posted token (text_of text attachments) attachments ch
request_for token text attachments (some t) ch =
    edited token (text_of text attachments) attachments t

-- Every message that a channel has is known by a timestamp.
abbrev pub IsKnown : Option NotifiedTarget → Type 0
IsKnown none = Unit {0}
IsKnown (some t) = is_empty t.ts ≡ false

text_of-lem :
    (text : Str) (attachments : List Attachment)
    → (if is_empty text && not (is_empty attachments) then str " " else text)
      ≡ text_of text attachments
unfolding is_empty
text_of-lem [] [] = refl
text_of-lem [] (a ∷ attachments) = refl
text_of-lem (c ∷ text) attachments = refl

call_for-request_for :
    (token text : Str) (attachments : List Attachment) (o : Option NotifiedTarget) (ch : Str)
    → IsKnown o
    → call_for token text attachments o ch ≡ request_for token text attachments o ch
unfolding make_request is_empty
call_for-request_for token text attachments none ch known =
    ap (λ x. posted token x attachments ch) (text_of-lem text attachments)
call_for-request_for token text attachments (some t) ch known =
    rw (known, text_of-lem text attachments) refl

module _ (token text : Str) (attachments : List Attachment) (existing : Map NotifiedTarget) where
  -- The requests for the channels in order, the newest first as the log has them.
  abbrev pub requests_for : List Str → Log → Log
  requests_for [] log = log
  requests_for (ch ∷ channels) log =
      requests_for channels (request_for token text attachments (get ch existing) ch ∷ log)

  calls_for-requests_for :
      (channels : List Str) (log : Log)
      → All (λ ch. IsKnown (get ch existing)) channels
      → calls_for token text attachments existing channels log ≡ requests_for channels log
  calls_for-requests_for [] log known = refl
  calls_for-requests_for (ch ∷ channels) log known =
      ap (λ q. calls_for token text attachments existing channels (q ∷ log))
        (call_for-request_for token text attachments (get ch existing) ch known.0)
      ∙ calls_for-requests_for channels _ known.1

  -- With a token, a bucket makes exactly one call for each channel, in order, whatever Slack
  -- answers: chat.update of the message that the channel has already, by its timestamp and its
  -- channel at Slack, and chat.postMessage to the channel where it has none; each with the text and
  -- the attachments, a space where there is no text. The messages of the bucket have timestamps.
  pub deliver_calls :
      (respond : Respond) (channels : List Str) (d : Delivery)
      → is_empty token ≡ false
      → All (λ ch. IsKnown (get ch existing)) channels
      → (deliver respond token text attachments existing channels d).log
        ≡ requests_for channels d.log
  deliver_calls respond channels d h known =
      deliver_log respond token text attachments existing channels d h
      ∙ calls_for-requests_for channels d.log known
