-- ===== src/Submit/Server/Written.antt =====
-- What is submitted can be read: a submission, and the object service that consumes the topic.
use mathlib.Core.List.{append_assoc, append-nil, map-append, map-map}
use kafka_cad.Prelude.{
  String, ◌≡◌, refl, sym, ap, ◌∙◌, none, some, List, [], ◌∷◌, ◌++◌, map, get_last?, Eq, string_eq,
  arith,
}
use kafka_cad.Prelude.Int.{ℤ}
use kafka_cad.Prelude.Result.{ok}
use kafka_cad.State.{ChangeMsg}
use kafka_cad.Kafka.{received, handle_stream}
use kafka_cad.Objects.{Services, obj_cache, get_object, update_object_cache}
use kafka_cad.Objects.Keys.{IsPlainId}
use kafka_cad.Objects.History.{Commit, IsPlainLog, latest, message_of, found, get_object-consume}
use kafka_cad.Submit.{Clients, update_changes}
use kafka_cad.Submit.Sets.{last_change}
use kafka_cad.Submit.Produce
use kafka_cad.Kafka.Producer.{Producer}
use kafka_cad.Submit.Produce.{await_all, send_all}
use kafka_cad.Submit.Server.{submit_changes}
use kafka_cad.Submit.Server.Newest.{
  commits, AreAtMost, leb_ℤ_trans, or_else, version_at, latest-or_else, latest-append,
  IsPlainLog-append, given_or, last_change-given, given_or-version_at,
}

module _ {Blob : Type 0} ⦃e : Eq Blob⦄ (s : Services Blob) (p : Producer Blob) (file : String) where
  -- The producer delivers messages of the file for the changes, at the offsets.
  pub data Delivered : List ChangeMsg → p.Topic → List ℤ → p.Topic → Type 0 where
    all : {t : p.Topic} → Delivered [] t [] t
    one :
        {change : ChangeMsg} {changes : List ChangeMsg} {t t' t'' : p.Topic} {offset : ℤ}
        {offsets : List ℤ}
        → p.send (s.texts.encode file) (s.changes.encode change) t ≡ (some offset, t')
        → Delivered changes t' offsets t''
        → Delivered (change ∷ changes) t (offset ∷ offsets) t''

  send_all-Delivered :
      {changes : List ChangeMsg} {t t' : p.Topic} {offsets : List ℤ}
      → Delivered changes t offsets t'
      → send_all p s.texts s.changes file changes t ≡ (map some offsets, t')
  unfolding send_all
  send_all-Delivered all = refl
  send_all-Delivered (one q d) = rw (q, send_all-Delivered d, send_all) refl

  await_all-some : (offsets : List ℤ) → await_all (map some offsets) ≡ some offsets
  unfolding await_all
  await_all-some [] = refl
  await_all-some (offset ∷ offsets) = rw (await_all-some offsets, await_all) refl

  messages-Delivered :
      {changes : List ChangeMsg} {t t' : p.Topic} {offsets : List ℤ}
      → Delivered changes t offsets t'
      → p.messages t' ≡ p.messages t ++ map (message_of s) (commits file changes offsets)
  messages-Delivered {t = t} all = sym (append-nil (p.messages t))
  messages-Delivered (one {changes = changes} {offsets = offsets} q d) =
      messages-Delivered d
      ∙ ap (λ ms. ms ++ map (message_of s) (commits file changes offsets))
          (p.messages-send _ _ _ _ _ q)
      ∙ append_assoc (p.messages _) _ _

  -- Offsets grow, so the last one is the greatest.
  Delivered-AreAtMost :
      {changes : List ChangeMsg} {t t' : p.Topic} {offsets : List ℤ} (top : ℤ)
      → Delivered changes t offsets t'
      → get_last? offsets ≡ some top
      → AreAtMost top offsets
  Delivered-AreAtMost top all h = tt
  Delivered-AreAtMost top (one {offset = offset} q all) h = (ground (arith, h), tt)
  Delivered-AreAtMost top (one {offset = offset} q (one {offset = next} r d)) h =
      let rest = Delivered-AreAtMost top (one r d) h in
      (leb_ℤ_trans offset next top (p.send-order _ _ _ _ _ _ _ _ _ q r) rest.0, rest)

  latest-commits :
      {changes : List ChangeMsg} {t t' : p.Topic} {offsets : List ℤ} (top : ℤ) (id : String)
      → Delivered changes t offsets t'
      → AreAtMost top offsets
      → latest top file id (commits file changes offsets) ≡ last_change id changes none
  latest-commits top id all h = refl
  latest-commits top id
        (one {change = change} {changes = changes} {offset = offset} {offsets = offsets} q d)
        (h, hs) =
      let c : Commit = record { file = file; offset = offset; change = change } in
      latest-or_else top file id c (commits file changes offsets)
      ∙ ap (λ o. or_else o (version_at top file id c)) (latest-commits top id d hs)
      ∙ ap (or_else (last_change id changes none)) (
          given_or-version_at top file id change.user offset change.change_type change.change_source
            h)
      ∙ sym (last_change-given id changes (given_or id change change.change_type none))

  -- After a submission of which the operations service makes the changes `sent`, and whose messages
  -- are all delivered: the answer is their offsets, and the object service that consumes the topic
  -- from an empty cache answers, for each object that `sent` changes, its last change there at the
  -- last offset of the answer. The ids of all objects are plain.
  pub submit_changes-read :
      {Status : Type 0} (clients : Clients Status) (log : List Commit) (kept : s.Db)
      (user id : String) (offset top : ℤ) (changes sent : List ChangeMsg) (t t' : p.Topic)
      (offsets : List ℤ) (change : ChangeMsg)
      → update_changes clients file user offset changes ≡ ok sent
      → Delivered sent t offsets t'
      → get_last? offsets ≡ some top
      → p.messages t ≡ map (message_of s) log
      → IsPlainLog log
      → IsPlainLog (commits file sent offsets)
      → IsPlainId id
      → s.lrange kept (obj_cache file id) ≡ []
      → last_change id sent none ≡ some change
      → (submit_changes clients p s.texts s.changes
            (record { file = file; user = user; offset = offset; changes = changes })
            t
          ≡ (some (ok offsets), t'))
        × (get_object s file top id
              (handle_stream s.texts (update_object_cache s) (map received (p.messages t')) kept)
            ≡ ok (s.changes.encode change))
  unfolding submit_changes Produce.submit_changes
  submit_changes-read clients log kept user id offset top changes sent t t' offsets change updated d
        last topic plain plain' k empty p_last =
      let log' = log ++ commits file sent offsets in
      let messages : p.messages t' ≡ map (message_of s) log' =
        messages-Delivered d
        ∙ ap (λ ms. ms ++ map (message_of s) (commits file sent offsets)) topic
        ∙ sym (map-append (message_of s) log (commits file sent offsets)) in
      let newest : latest top file id log' ≡ some change =
        latest-append top file id log (commits file sent offsets)
        ∙ ap (λ o. or_else o (latest top file id log))
            (latest-commits top id d (Delivered-AreAtMost top d last) ∙ p_last) in
      (
        rw (updated, send_all-Delivered d, await_all-some offsets, submit_changes) refl,
        ap
              (λ ms.
                get_object s file top id
                  (handle_stream s.texts (update_object_cache s) (map received ms) kept))
              messages
            ∙ ap
                (λ es.
                  get_object s file top id (handle_stream s.texts (update_object_cache s) es kept))
                (map-map received (message_of s) log')
            ∙ get_object-consume s log' top file id kept (IsPlainLog-append log _ plain plain') k
                empty
            ∙ ap (found s id) newest,
      )
