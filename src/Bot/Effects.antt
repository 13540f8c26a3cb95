-- ===== src/Bot/Effects.antt =====
-- What one update can do: to the API, and to the chats that wait for a name.
use ez_vpn_lego.Prelude.{
  ◌≡◌, ◌⊎◌, refl, ◌≤◌, String, true, false, ◌||◌, Option, none, some, ltb, ◌==◌, string_eq,
  Bool-cases, inl, inr, arith,
}
use ez_vpn_lego.Prelude.Text.{is_empty, trim_space, rune_count}
use ez_vpn_lego.Control as Api
use ez_vpn_lego.Control.{
  Client, Json, Network, Reply, ClientError, failed, received, Owner, AccessCreation, Health,
}
use package.ez_vpn_lego.Bot.{
  App, Message, Callback, Update, has_prefix, paired, access_answered, status_answered, set_waiting,
  clear_waiting, at, create_access, started, start, known, read_text, from_user, handle_message,
  chosen, in_chat, handle_callback, routed, handle,
}

-- The user and the chat of an update: of a message in a private chat, or of a button.
abbrev pub IsFrom : Update → String → String → Type 0
IsFrom update subject chat =
    ((message : Message) × (update.message ≡ some message)
      × (message.from ≡ some subject)
      × (message.is_private ≡ true)
      × (message.chat ≡ chat))
    ⊎ ((callback : Callback) × (update.callback ≡ some callback)
        × (callback.from ≡ subject)
        × (callback.chat ≡ some chat))

module _ {S : Type 0} (json : Json) (network : Network S) (client : Client) where
  abbrev pub resolve : String → S → Reply Owner × S
  resolve = Api.resolve_telegram json network client

  -- The change from one state of the bot to another.
  pub data Effect (From : String → String → Type 0) (a b : App S) : Type 0 where
    none_at_all : b.remote ≡ a.remote → b.waiting ≡ a.waiting → Effect From a b
    asked :
        (subject chat : String)
        → From subject chat
        → b.remote ≡ (resolve subject a.remote).1
        → b.waiting ≡ a.waiting
        → Effect From a b
    invited :
        (subject chat : String) (admin : Owner)
        → From subject chat
        → (resolve subject a.remote).0 ≡ received admin
        → b.remote ≡ (resolve subject a.remote).1
        → b.waiting ≡ (set_waiting chat a).waiting
        → Effect From a b
    dismissed :
        (subject chat : String) (admin : Owner)
        → From subject chat
        → (resolve subject a.remote).0 ≡ received admin
        → b.remote ≡ (resolve subject a.remote).1
        → b.waiting ≡ (clear_waiting chat a).waiting
        → Effect From a b
    claimed :
        (subject chat token : String) (e : ClientError)
        → From subject chat
        → (resolve subject a.remote).0 ≡ failed e
        → is_empty token ≡ false
        → b.remote
          ≡ (Api.claim_telegram_pairing json network client token subject
              (resolve subject a.remote).1).1
        → b.waiting ≡ a.waiting
        → Effect From a b
    created :
        (subject chat name key : String) (admin : Owner)
        → From subject chat
        → (resolve subject a.remote).0 ≡ received admin
        → a.waiting chat ≡ true
        → is_empty name ≡ false
        → rune_count name ≤ 80
        → b.remote
          ≡ (Api.create_access json network client name key admin.id (resolve subject a.remote).1).1
        → b.waiting ≡ (clear_waiting chat a).waiting
        → Effect From a b
    health_read :
        (subject chat : String) (admin : Owner)
        → From subject chat
        → (resolve subject a.remote).0 ≡ received admin
        → b.remote ≡ (Api.get_health json network client (resolve subject a.remote).1).1
        → b.waiting ≡ a.waiting
        → Effect From a b

  paired-parts :
      (chat : String) (r : Reply Owner × S) (a : App S)
      → ((paired chat r a).remote ≡ r.1) × ((paired chat r a).waiting ≡ a.waiting)
  paired-parts chat (failed e, s) a = (refl, refl)
  paired-parts chat (received owner, s) a = (refl, refl)

  pub access-parts :
      (chat name : String) (r : Reply AccessCreation × S) (a : App S)
      → ((access_answered chat name r a).remote ≡ r.1)
        × ((access_answered chat name r a).waiting ≡ a.waiting)
  access-parts chat name (failed e, s) a = (refl, refl)
  access-parts chat name (received result, s) a = (refl, refl)

  status-parts :
      (chat : String) (r : Reply Health × S) (a : App S)
      → ((status_answered chat r a).remote ≡ r.1) × ((status_answered chat r a).waiting ≡ a.waiting)
  status-parts chat (failed e, s) a = (refl, refl)
  status-parts chat (received health, s) a = (refl, refl)

  start-Effect :
      (From : String → String → Type 0) (chat subject token : String) (a : App S)
      → From subject chat
      → Effect From a (start json network client chat subject token a)
  unfolding start
  start-Effect From chat subject token a from = cases (resolve subject a.remote) refl
    where
      cases :
          (r : Reply Owner × S)
          → resolve subject a.remote ≡ r
          → Effect From a (started json network client chat subject token r a)
      cases (received owner, s) e = asked subject chat from (rw e refl) refl
      cases (failed reason, s) e = elim (Bool-cases (is_empty token)) [
        | inl missing ↦ rw missing (asked subject chat from (rw e refl) refl)
        | inr given ↦ rw given (
            claimed subject chat token reason from (rw e refl) given
              (rw e (paired-parts chat _ (at s a)).0) (paired-parts chat _ (at s a)).1)
      ]

  name_fits :
      (name : String)
      → (is_empty name || ltb 80 (rune_count name)) ≡ false
      → (is_empty name ≡ false) × (rune_count name ≤ 80)
  name_fits name h = ground (arith, h)

  create_access-Effect :
      (From : String → String → Type 0) (draw : Option String) (chat subject text : String)
      (admin : Owner) (s : S) (a : App S)
      → From subject chat
      → resolve subject a.remote ≡ (received admin, s)
      → a.waiting chat ≡ true
      → Effect From a
          (create_access json network client draw chat admin.id text (clear_waiting chat (at s a)))
  unfolding create_access
  create_access-Effect From none chat subject text admin s a from e waits =
      elim (Bool-cases (is_empty (trim_space text) || ltb 80 (rune_count (trim_space text)))) [
        | inl bad ↦ rw bad (dismissed subject chat admin from (rw e refl) (rw e refl) refl)
        | inr good ↦ rw good (dismissed subject chat admin from (rw e refl) (rw e refl) refl)
      ]
  create_access-Effect From (some key) chat subject text admin s a from e waits =
      elim (Bool-cases (is_empty (trim_space text) || ltb 80 (rune_count (trim_space text)))) [
        | inl bad ↦ rw bad (dismissed subject chat admin from (rw e refl) (rw e refl) refl)
        | inr good ↦ rw good (
            created subject chat (trim_space text) key admin from (rw e refl) waits
              (name_fits (trim_space text) good).0 (name_fits (trim_space text) good).1
              (rw e (access-parts chat (trim_space text) _ (clear_waiting chat (at s a))).0)
              (access-parts chat (trim_space text) _ (clear_waiting chat (at s a))).1)
      ]

  known-Effect :
      (From : String → String → Type 0) (draw : Option String) (chat subject text : String)
      (a : App S) (r : Reply Owner × S)
      → From subject chat
      → resolve subject a.remote ≡ r
      → Effect From a (known json network client draw chat text r a)
  known-Effect From draw chat subject text a (failed reason, s) from e =
      asked subject chat from (rw e refl) refl
  known-Effect From draw chat subject text a (received admin, s) from e =
      elim (Bool-cases (text == "/new")) [
        | inl new ↦ rw new (invited subject chat admin from (rw e refl) (rw e refl) refl)
        | inr other ↦ elim (Bool-cases (a.waiting chat)) [
          | inl waits ↦
              rw (other, waits)
                (create_access-Effect From draw chat subject text admin s a from e waits)
          | inr idle ↦
              rw (other, idle) (dismissed subject chat admin from (rw e refl) (rw e refl) refl)
        ]
      ]

  texts-Effect :
      (From : String → String → Type 0) (draw : Option String) (chat subject text : String)
      (a : App S)
      → From subject chat
      → Effect From a (read_text json network client draw chat subject text a)
  unfolding read_text
  texts-Effect From draw chat subject text a from = elim (Bool-cases (has_prefix text "/start")) [
    | inl begins ↦ rw begins (start-Effect From chat subject _ a from)
    | inr other ↦
        rw other (known-Effect From draw chat subject text a (resolve subject a.remote) from refl)
  ]

  handle_message-Effect :
      (draw : Option String) (update : Update) (message : Option Message) (a : App S)
      → update.message ≡ message
      → Effect (IsFrom update) a (handle_message json network client draw message a)
  unfolding handle_message
  handle_message-Effect draw update none a e = none_at_all refl refl
  handle_message-Effect draw update (some message) a e = sender message.from refl
    where
      sender :
          (user : Option String)
          → message.from ≡ user
          → Effect (IsFrom update) a (from_user json network client draw message user a)
      sender none same = none_at_all refl refl
      sender (some subject) same = elim (Bool-cases message.is_private) [
        | inl alone ↦ rw alone (
            texts-Effect (IsFrom update) draw message.chat subject (trim_space message.text) a
              (inl (message, e, same, alone, refl)))
        | inr group ↦ rw group (none_at_all refl refl)
      ]

  chosen-Effect :
      (From : String → String → Type 0) (chat subject choice : String) (a : App S)
      (r : Reply Owner × S)
      → From subject chat
      → resolve subject a.remote ≡ r
      → Effect From a (chosen json network client chat choice r a)
  chosen-Effect From chat subject choice a (failed reason, s) from e =
      asked subject chat from (rw e refl) refl
  chosen-Effect From chat subject choice a (received admin, s) from e =
      elim (Bool-cases (choice == "menu:new")) [
        | inl new ↦ rw new (invited subject chat admin from (rw e refl) (rw e refl) refl)
        | inr n1 ↦ elim (Bool-cases (choice == "menu:status")) [
          | inl status ↦
              rw (n1, status)
                (health_read subject chat admin from (rw e refl)
                  (rw e (status-parts chat _ (at s a)).0) (status-parts chat _ (at s a)).1)
          | inr n2 ↦ elim (Bool-cases (choice == "menu:home")) [
            | inl home ↦ rw (n1, n2, home) (asked subject chat from (rw e refl) refl)
            | inr n3 ↦ rw (n1, n2, n3) (asked subject chat from (rw e refl) refl)
          ]
        ]
      ]

  in_chat-Effect :
      (update : Update) (callback : Callback) (chat : Option String) (a : App S)
      → update.callback ≡ some callback
      → callback.chat ≡ chat
      → Effect (IsFrom update) a (in_chat json network client callback chat a)
  in_chat-Effect update callback none a e here = none_at_all refl refl
  in_chat-Effect update callback (some chat) a e here =
      chosen-Effect (IsFrom update) chat callback.from callback.payload a
        (resolve callback.from a.remote) (inr (callback, e, refl, here)) refl

  -- Every update does one of these, with the user and the chat that it comes from: nothing; it asks the
  -- API who the user is, and no more; for a user that the API resolves it marks or unmarks the chat as
  -- waiting, or reads the health; for one that the API does not resolve it claims a pairing with a token
  -- that is not empty; or, for a user that the API resolves, in a chat that was waiting and waits no
  -- longer, it creates an access for that administrator, under a name of 1 to 80 runes.
  pub handle-Effect :
      (draw : Option String) (update : Update) (a : App S)
      → Effect (IsFrom update) a (handle json network client draw update a)
  unfolding handle handle_callback
  handle-Effect draw update a = routes update.callback refl
    where
      routes :
          (callback : Option Callback)
          → update.callback ≡ callback
          → Effect (IsFrom update) a (routed json network client draw update callback a)
      routes none e = handle_message-Effect draw update update.message a refl
      routes (some callback) e = elim (Bool-cases (has_prefix callback.payload "menu:")) [
        | inl button ↦ rw button (in_chat-Effect update callback callback.chat a e refl)
        | inr other ↦ rw other (handle_message-Effect draw update update.message a refl)
      ]
