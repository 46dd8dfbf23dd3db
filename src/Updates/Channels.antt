-- ===== src/Updates/Channels.antt =====
-- Which channels are left after a message.
use kafka_cad.Prelude.{
  ℕ, suc, String, ◌≡◌, refl, sym, ap, ap₂, ◌∙◌, Bool, Option, none, some, List, [], ◌∷◌, ◌++◌,
  string_eq, ◌==◌, Bool-cases, Option-cases, Eq-cases, inl, inr, if◌then◌else◌,
}
use mathlib.Core.List.{append_assoc}
use kafka_cad.Prelude.Result.{ok}
use kafka_cad.Redis.{Codec}
use kafka_cad.Kafka.{Message}
use kafka_cad.Updates.{
  UpdateMessage, ChannelSend, ChannelMap, put_senders, remove_at, delete_channels, reverse_onto,
  reverse, send_all, notify, handle_message, find_user, unsubscribe,
}

module _ {Blob Sender World : Type 0} (texts : Codec Blob String)
    (send : Sender → UpdateMessage Blob → World → Bool × World) where
  -- The channels on which sending one after another succeeds, and the state after that.
  abbrev pub open_senders :
      UpdateMessage Blob → List (ChannelSend Sender) → World → List (ChannelSend Sender)
  open_senders message [] world = []
  open_senders message (sender ∷ senders) world =
      let rest = open_senders message senders (send sender.sender message world).1 in
      if (send sender.sender message world).0 then sender ∷ rest else rest

  abbrev pub world_after : UpdateMessage Blob → List (ChannelSend Sender) → World → World
  world_after message [] world = world
  world_after message (sender ∷ senders) world =
      world_after message senders (send sender.sender message world).1

-- Removing positions behind a list of others leaves these.
delete_append :
    {A : Type 0} (is js : List ℕ) (xs : List A)
    → delete_channels (is ++ js) xs ≡ delete_channels js (delete_channels is xs)
unfolding delete_channels
delete_append [] js xs = refl
delete_append (i ∷ is) js xs = delete_append is js (remove_at i xs)

abbrev shifted : List ℕ → List ℕ
shifted [] = []
shifted (i ∷ is) = suc i ∷ shifted is

delete_shifted :
    {A : Type 0} (is : List ℕ) (x : A) (xs : List A)
    → delete_channels (shifted is) (x ∷ xs) ≡ x ∷ delete_channels is xs
unfolding delete_channels
delete_shifted [] x xs = refl
delete_shifted (i ∷ is) x xs = delete_shifted is x (remove_at i xs)

reverse_shifted :
    (is js : List ℕ) → reverse_onto (shifted is) (shifted js) ≡ shifted (reverse_onto is js)
reverse_shifted [] js = refl
reverse_shifted (i ∷ is) js = reverse_shifted is (i ∷ js)

reverse_onto-append : {A : Type 0} (xs ys : List A) → reverse_onto xs ys ≡ reverse_onto xs [] ++ ys
reverse_onto-append [] ys = refl
reverse_onto-append (x ∷ xs) ys =
    reverse_onto-append xs (x ∷ ys)
    ∙ sym (
        ap (λ l. l ++ ys) (reverse_onto-append xs (x ∷ []))
        ∙ append_assoc (reverse_onto xs []) (x ∷ []) ys)

module _ {Blob Sender World : Type 0} (texts : Codec Blob String)
    (send : Sender → UpdateMessage Blob → World → Bool × World) where
  send_all-shift :
      (message : UpdateMessage Blob) (senders : List (ChannelSend Sender)) (index : ℕ)
      (world : World)
      → (send_all texts send message senders (suc index) world).0
        ≡ shifted (send_all texts send message senders index world).0
  unfolding send_all
  send_all-shift message [] index world = refl
  send_all-shift message (sender ∷ senders) index world =
      let rest = send_all-shift message senders (suc index) (send sender.sender message world).1 in
      elim (Bool-cases (send sender.sender message world).0) [
        | inl t ↦ rw (t, send_all) rest
        | inr t ↦ rw (t, send_all) (ap (◌∷◌ (suc index)) rest)
      ]

  send_all-world :
      (message : UpdateMessage Blob) (senders : List (ChannelSend Sender)) (index : ℕ)
      (world : World)
      → (send_all texts send message senders index world).1
        ≡ world_after texts send message senders world
  unfolding send_all
  send_all-world message [] index world = refl
  send_all-world message (sender ∷ senders) index world =
      send_all-world message senders (suc index) (send sender.sender message world).1

  delete_channels-open :
      (message : UpdateMessage Blob) (senders : List (ChannelSend Sender)) (world : World)
      → delete_channels (reverse (send_all texts send message senders 0 world).0) senders
        ≡ open_senders texts send message senders world
  unfolding send_all delete_channels
  delete_channels-open message [] world = refl
  delete_channels-open message (sender ∷ senders) world =
      let next = (send sender.sender message world).1 in
      let later = (send_all texts send message senders 0 next).0 in
      let shift = send_all-shift message senders 0 next in
      let rest = delete_channels-open message senders next in
      elim (Bool-cases (send sender.sender message world).0) [
        | inl t ↦
            rw (t, send_all)
              (ap (λ l. delete_channels (reverse l) (sender ∷ senders)) shift
                ∙ ap (λ l. delete_channels l (sender ∷ senders)) (reverse_shifted later [])
                ∙ delete_shifted (reverse later) sender senders
                ∙ ap (◌∷◌ sender) rest)
        | inr t ↦
            rw (t, send_all)
              (ap (λ l. delete_channels (reverse_onto l (0 ∷ [])) (sender ∷ senders)) shift
                ∙ ap (λ l. delete_channels l (sender ∷ senders))
                    (reverse_onto-append (shifted later) (0 ∷ []))
                ∙ delete_append (reverse_onto (shifted later) []) (0 ∷ []) (sender ∷ senders)
                ∙ ap (λ l. remove_at 0 (delete_channels l (sender ∷ senders)))
                    (reverse_shifted later [])
                ∙ ap (remove_at 0) (delete_shifted (reverse later) sender senders)
                ∙ rest)
      ]

  -- A message with a payload and a readable key, for a file that has channels, is sent on each
  -- channel in their order, and leaves exactly the channels on which sending succeeded, in their
  -- order; the other files have the channels that they had.
  pub handle_message-open :
      (m : Message Blob) (file : String) (bytes file_bytes : Blob)
      (entry : List (ChannelSend Sender)) (channels : ChannelMap Sender) (world : World)
      → m.payload ≡ some bytes
      → m.key ≡ some file_bytes
      → texts.decode file_bytes ≡ some file
      → channels file ≡ some entry
      → (let message : UpdateMessage Blob = record { file = file; msg = bytes } in
          handle_message texts send m (channels, world) ≡ (
            ok tt,
            (
              put_senders file (open_senders texts send message entry world) channels,
              world_after texts send message entry world,
            ),
          ))
  unfolding handle_message notify
  handle_message-open m file bytes file_bytes entry channels world p q d h =
      let message : UpdateMessage Blob = record { file = file; msg = bytes } in
      rw (p, q, d, h, handle_message, notify)
        (ap₂ (λ l w. (ok tt, (put_senders file l channels, w)))
          (delete_channels-open message entry world) (send_all-world message entry 0 world))

-- The channels without the first one of the user.
abbrev pub drop_user :
    {Sender : Type 0} → String → List (ChannelSend Sender) → List (ChannelSend Sender)
drop_user user [] = []
drop_user user (send ∷ senders) =
    if send.user == user then senders else send ∷ drop_user user senders

find_user-shift :
    {Sender : Type 0} (user : String) (senders : List (ChannelSend Sender)) (index : ℕ)
    → find_user user senders (suc index)
      ≡ (elim (find_user user senders index) [ none ↦ none | some i ↦ some (suc i) ])
unfolding find_user
find_user-shift user [] index = refl
find_user-shift user (send ∷ senders) index = elim (Bool-cases (send.user == user)) [
  | inl t ↦ rw (t, find_user)
  | inr t ↦ rw (t, find_user) (find_user-shift user senders (suc index))
]

abbrev removed : {A : Type 0} → Option ℕ → List A → List A
removed none xs = xs
removed (some i) xs = remove_at i xs

remove_later :
    {A : Type 0} (x : A) (xs : List A) (o : Option ℕ)
    → removed (elim o [ none ↦ none | some i ↦ some (suc i) ]) (x ∷ xs) ≡ x ∷ removed o xs
remove_later x xs none = refl
remove_later x xs (some i) = refl

find_user-drop :
    {Sender : Type 0} (user : String) (senders : List (ChannelSend Sender))
    → removed (find_user user senders 0) senders ≡ drop_user user senders
unfolding find_user
find_user-drop user [] = refl
find_user-drop user (send ∷ senders) = elim (Bool-cases (send.user == user)) [
  | inl t ↦ rw (t, find_user)
  | inr t ↦
      rw (t, find_user, find_user-shift user senders 0)
        (remove_later send senders (find_user user senders 0)
          ∙ ap (◌∷◌ send) (find_user-drop user senders))
]

-- The channels of a file after an Unsubscribe command.
abbrev pub dropped :
    {Sender : Type 0}
    → String
    → Option (List (ChannelSend Sender))
    → Option (List (ChannelSend Sender))
dropped user none = none
dropped user (some senders) = some (drop_user user senders)

-- Unsubscribing a user from a file takes the first channel of that user off the channels of that
-- file, where there is one, and changes nothing else.
pub unsubscribe-drop :
    {Sender : Type 0} (filename user file : String) (channels : ChannelMap Sender)
    → unsubscribe filename user channels file
      ≡ (if filename == file then dropped user (channels file) else channels file)
unfolding unsubscribe
unsubscribe-drop filename user file channels = elim (Option-cases (channels filename)) [
  | inl p ↦
      rw (p, unsubscribe)
        (elim (Eq-cases filename file) [
          | inr (t, _) ↦ rw t
          | inl (t, q) ↦
              rw t (let here = ap channels (sym q) ∙ p in here ∙ sym (ap (dropped user) here))
        ])
  | inr (senders, p) ↦ elim (Option-cases (find_user user senders 0)) [
    | inl u ↦
        rw (p, u, unsubscribe)
          (elim (Eq-cases filename file) [
            | inr (t, _) ↦ rw t
            | inl (t, q) ↦ rw t (
                let here = ap channels (sym q) ∙ p in
                here
                ∙ sym (
                    ap (dropped user) here
                    ∙ ap some (sym (find_user-drop user senders) ∙ ap (λ o. removed o senders) u)))
          ])
    | inr (index, u) ↦
        rw (p, u, unsubscribe)
          (elim (Eq-cases filename file) [
            | inr (t, _) ↦ rw t
            | inl (t, q) ↦ rw t (
                let here = ap channels (sym q) ∙ p in
                sym (
                  ap (dropped user) here
                  ∙ ap some (sym (find_user-drop user senders) ∙ ap (λ o. removed o senders) u)))
          ])
  ]
]
