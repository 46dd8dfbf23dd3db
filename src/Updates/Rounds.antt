-- ===== src/Updates/Rounds.antt =====
-- Subscribe and Unsubscribe of updates/src/main.rs, one after the other.
use kafka_cad.Prelude.{
  String, ◌≡◌, ◌∙◌, ap, Bool, false, ◌||◌, Option, none, some, List, [], ◌∷◌, ◌++◌, string_eq, ◌==◌,
  ==_refl, Bool-cases, Option-cases, inl, inr, if◌then◌else◌,
}
use kafka_cad.Updates.{ChannelSend, ChannelMap, put_senders, subscribe, unsubscribe}
use kafka_cad.Updates.Channels.{drop_user, unsubscribe-drop}

abbrev pub has_user : {Sender : Type 0} → String → List (ChannelSend Sender) → Bool
has_user user [] = false
has_user user (send ∷ senders) = send.user == user || has_user user senders

-- The channels of a file, none where the file has no entry.
abbrev pub senders_of :
    {Sender : Type 0} → Option (List (ChannelSend Sender)) → List (ChannelSend Sender)
senders_of none = []
senders_of (some senders) = senders

-- The first channel of a user is the one that came last, where there was none.
drop_user-last :
    {Sender : Type 0} (send : ChannelSend Sender) (senders : List (ChannelSend Sender))
    → has_user send.user senders ≡ false
    → drop_user send.user (senders ++ send ∷ []) ≡ senders
drop_user-last send [] h = rw (==_refl send.user)
drop_user-last send (other ∷ senders) h = elim (Bool-cases (other.user == send.user)) [
  | inl t ↦ let q = rw t at h in cc q
  | inr t ↦ rw t (ap (◌∷◌ other) (drop_user-last send senders (rw t at h)))
]

subscribe-put :
    {Sender : Type 0} (filename : String) (send : ChannelSend Sender) (channels : ChannelMap Sender)
    → subscribe filename send channels
      ≡ put_senders filename (senders_of (channels filename) ++ send ∷ []) channels
unfolding subscribe
subscribe-put filename send channels = elim (Option-cases (channels filename)) [
  | inl p ↦ rw (p, subscribe)
  | inr (senders, p) ↦ rw (p, subscribe)
]

-- Where a user has no channel for a file, subscribing the user and unsubscribing again leaves the
-- file with the channels that it had, in their order (an empty list where it had no entry), and
-- every other file as it was.
pub unsubscribe-subscribe :
    {Sender : Type 0} (filename file : String) (send : ChannelSend Sender)
    (channels : ChannelMap Sender)
    → has_user send.user (senders_of (channels filename)) ≡ false
    → unsubscribe filename send.user (subscribe filename send channels) file
      ≡ (if filename == file then some (senders_of (channels filename)) else channels file)
unsubscribe-subscribe filename file send channels h = rw (subscribe-put filename send channels) (
    unsubscribe-drop filename send.user file _ ∙ (elim (Bool-cases (filename == file)) [
      | inl t ↦ rw t (ap some (drop_user-last send (senders_of (channels filename)) h))
      | inr t ↦ rw t
    ]))
