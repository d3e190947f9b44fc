-- ===== src/Workflows/Flush/Deliver.antt =====
-- The calls to Slack for one bucket, and the targets that they leave.
use mathlib.Core.List.{append-nil, append_assoc}
use alertory.Prelude.{false, List, [], ◌∷◌, ◌++◌, map, Option, none, some, ◌≡◌, refl, ◌∙◌, ap}
use alertory.Text.{Str}
use alertory.Map.{Map, get}
use alertory.Slack.{
  Attachment, Sent, delivered, failed, Log, Respond, Request, is_empty, post, update, send,
  make_request, post_url, update_url, read_response,
}
use alertory.Db.Member.{NotifiedTarget}
use alertory.Workflows.Flush.{Delivery, or_earlier, api_channel_of, after_post, deliver_to, deliver}

abbrev pub channels_of : List NotifiedTarget → List Str
channels_of = map (λ t. t.channel)

channels_of-append :
    (s t : List NotifiedTarget) → channels_of (s ++ t) ≡ channels_of s ++ channels_of t
channels_of-append [] t = refl
channels_of-append (x ∷ s) t = ap (λ c. x.channel ∷ c) (channels_of-append s t)

pub or_earlier-none : (a b : Option Str) → or_earlier a b ≡ none → (a ≡ none) × (b ≡ none)
or_earlier-none a none h = (h, refl)
or_earlier-none a (some e) h = cc

module _ (respond : Respond) (token text : Str) (attachments : List Attachment) where
  deliver_to_error :
      (o : Option NotifiedTarget) (ch : Str) (d : Delivery)
      → (deliver_to respond token text attachments o ch d).bucket_error ≡ none
      → d.bucket_error ≡ none
  unfolding deliver_to
  deliver_to_error none ch d h = after (post respond token ch text attachments d.log).0 _ h
    where
      after :
          (sent : Sent) (log : Log)
          → (after_post respond token ch sent log d).bucket_error ≡ none
          → d.bucket_error ≡ none
      after (delivered res) log k = k
      after (failed error) log k = cc
  deliver_to_error (some t) ch d h = (or_earlier-none _ _ h).0

  deliver_to_targets :
      (o : Option NotifiedTarget) (ch : Str) (d : Delivery)
      → (deliver_to respond token text attachments o ch d).bucket_error ≡ none
      → channels_of (deliver_to respond token text attachments o ch d).new_targets
        ≡ channels_of d.new_targets ++ (ch ∷ [])
  unfolding deliver_to
  deliver_to_targets none ch d h = after (post respond token ch text attachments d.log).0 _ h
    where
      after :
          (sent : Sent) (log : Log)
          → (after_post respond token ch sent log d).bucket_error ≡ none
          → channels_of (after_post respond token ch sent log d).new_targets
            ≡ channels_of d.new_targets ++ (ch ∷ [])
      after (delivered res) log k = channels_of-append d.new_targets _
      after (failed error) log k = cc
  deliver_to_targets (some t) ch d h = channels_of-append d.new_targets _

  module _ (existing : Map NotifiedTarget) where
    pub deliver_error :
        (channels : List Str) (d : Delivery)
        → (deliver respond token text attachments existing channels d).bucket_error ≡ none
        → d.bucket_error ≡ none
    unfolding deliver
    deliver_error [] d h = h
    deliver_error (ch ∷ channels) d h =
        deliver_to_error (get ch existing) ch d (deliver_error channels _ h)

    -- If no call fails, there is one target for each channel, in the order of the channels.
    pub channels_of-deliver :
        (channels : List Str) (d : Delivery)
        → (deliver respond token text attachments existing channels d).bucket_error ≡ none
        → channels_of (deliver respond token text attachments existing channels d).new_targets
          ≡ channels_of d.new_targets ++ channels
    unfolding deliver
    channels_of-deliver [] d h = rw append-nil refl
    channels_of-deliver (ch ∷ channels) d h =
        channels_of-deliver channels _ h
        ∙ (ap (λ c. c ++ channels)
              (deliver_to_targets (get ch existing) ch d (deliver_error channels _ h))
            ∙ append_assoc (channels_of d.new_targets) (ch ∷ []) channels)

-- The call for a channel: an edit of the message that it has, or else a new message.
abbrev pub call_for : Str → Str → List Attachment → Option NotifiedTarget → Str → Request
call_for token text attachments none ch = make_request token post_url ch [] text attachments
call_for token text attachments (some t) ch =
    make_request token update_url (api_channel_of t) t.ts text attachments

-- The calls for the channels, the newest first, before a log.
abbrev pub calls_for : Str → Str → List Attachment → Map NotifiedTarget → List Str → Log → Log
calls_for token text attachments existing [] log = log
calls_for token text attachments existing (ch ∷ channels) log =
    calls_for token text attachments existing channels
      (call_for token text attachments (get ch existing) ch ∷ log)

module _ (respond : Respond) (token text : Str) (attachments : List Attachment) where
  deliver_to_call :
      (o : Option NotifiedTarget) (ch : Str) (d : Delivery)
      → is_empty token ≡ false
      → (deliver_to respond token text attachments o ch d).log
        ≡ call_for token text attachments o ch ∷ d.log
  unfolding deliver_to post update send
  deliver_to_call none ch d h =
      rw h (after (read_response (respond d.log (call_for token text attachments none ch))) _)
    where
      after : (sent : Sent) (log : Log) → (after_post respond token ch sent log d).log ≡ log
      after (delivered res) log = refl
      after (failed error) log = refl
  deliver_to_call (some t) ch d h = rw h refl

  pub deliver_log :
      (existing : Map NotifiedTarget) (channels : List Str) (d : Delivery)
      → is_empty token ≡ false
      → (deliver respond token text attachments existing channels d).log
        ≡ calls_for token text attachments existing channels d.log
  unfolding deliver
  deliver_log existing [] d h = refl
  deliver_log existing (ch ∷ channels) d h =
      deliver_log existing channels _ h
      ∙ ap (calls_for token text attachments existing channels)
          (deliver_to_call (get ch existing) ch d h)
