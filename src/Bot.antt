-- ===== src/Bot.antt =====
-- internal/telegrambot/app.go: the dialogue of the bot, over the client of the API. An ID of Telegram
-- is its decimal text. What is sent is kept in `sent`, the last one first; an error of sending is
-- ignored, as the source ignores it, and updates are handled one after another.
pub mod Effects
pub mod Dialogue
mod Tests
use ez_vpn_lego.Prelude.{
  ◌≡◌, ℕ, String, Bool, true, false, not, ◌&&◌, ◌||◌, ◌<>◌, Option, none, some, List, [], ◌∷◌, ltb,
  ◌==◌, string_eq, if◌then◌else◌,
}
use ez_vpn_lego.Prelude.Text.{is_empty, trim_space, rune_count}
use ez_vpn_lego.Http.{after_prefix, trim_prefix}
use ez_vpn_lego.Control as Api
use ez_vpn_lego.Control.{
  Client, Json, Network, Reply, failed, received, Owner, AccessCreation, Health,
}

pub data Keyboard : Type 0 where
  no_keyboard menu_keyboard home_keyboard : Keyboard

pub record Sent : Type 0 where
  pub chat : String
  pub text : String
  pub keyboard : Keyboard

-- `models.Message`, as far as the bot reads it.
pub record Message : Type 0 where
  pub from : Option String
  pub is_private : Bool
  pub chat : String
  pub text : String

-- `models.CallbackQuery`; `chat` is that of its message.
pub record Callback : Type 0 where
  pub from : String
  pub chat : Option String
  pub payload : String

pub record Update : Type 0 where
  pub message : Option Message
  pub callback : Option Callback

-- `App`, with what the API keeps.
pub record App (S : Type 0) : Type 0 where
  pub waiting : String → Bool
  pub sent : List Sent
  pub remote : S

abbrev pub has_prefix : String → String → Bool
has_prefix s prefix = elim (after_prefix prefix s) [ none ↦ false | some rest ↦ true ]

module _ {S : Type 0} where
  -- `send`
  abbrev pub send : String → String → Keyboard → App S → App S
  send chat text keyboard a = record a {
    sent = (record { chat = chat; text = text; keyboard = keyboard }) ∷ a.sent;
  }

  -- `menu`
  abbrev pub menu : String → String → App S → App S
  menu chat text = send chat text menu_keyboard

  -- `setWaiting`
  abbrev pub set_waiting : String → App S → App S
  set_waiting chat a = record a { waiting = λ c. c == chat || a.waiting c }

  -- `takeWaiting`: the entry is in `waiting chat`, before it is deleted.
  abbrev pub clear_waiting : String → App S → App S
  clear_waiting chat a = record a { waiting = λ c. not (c == chat) && a.waiting c }

  abbrev pub at : S → App S → App S
  at s a = record a { remote = s }

  -- What `start` does with the outcome of the claim.
  abbrev pub paired : String → Reply Owner × S → App S → App S
  paired chat (failed e, s) a =
      send chat
        "Ссылка недействительна или уже использована. Создайте новую через lego-vpnctl telegram pairing."
        no_keyboard (at s a)
  paired chat (received owner, s) a =
      menu chat "Аккаунт привязан. Теперь сервером можно управлять здесь." (at s a)

  -- What `createAccess` does with the outcome of the call.
  abbrev pub access_answered : String → String → Reply AccessCreation × S → App S → App S
  access_answered chat name (failed e, s) a =
      send chat "Не удалось применить конфигурацию. Старый доступ продолжает работать." no_keyboard
        (at s a)
  access_answered chat name (received result, s) a =
      send chat
        ("Доступ «" <> name
          <> "» создан. Нажмите на ссылку ниже, чтобы импортировать его в клиент:\n\n"
          <> result.uri)
        home_keyboard (at s a)

  abbrev pub status_answered : String → Reply Health × S → App S → App S
  status_answered chat (failed e, s) a =
      send chat "Сервис временно недоступен." no_keyboard (at s a)
  status_answered chat (received health, s) a =
      menu chat ("Сервер работает · версия " <> health.version) (at s a)

module _ {S : Type 0} (json : Json) (network : Network S) (client : Client) where
  -- `createAccess` once there is a key.
  abbrev pub create_with : Option String → String → String → String → App S → App S
  create_with none chat admin_id name a = send chat "Не удалось создать доступ." no_keyboard a
  create_with (some key) chat admin_id name a =
      access_answered chat name (Api.create_access json network client name key admin_id a.remote) a

  -- `createAccess`, for the draw of `id.NewUUID`.
  unfoldable pub create_access : Option String → String → String → String → App S → App S
  create_access draw chat admin_id text a =
      let name = trim_space text in
      if is_empty name || ltb 80 (rune_count name)
      then send chat "Название должно содержать от 1 до 80 символов." no_keyboard a
      else create_with draw chat admin_id name a

  -- `start`, for the outcome of its first call.
  abbrev pub started : String → String → String → Reply Owner × S → App S → App S
  started chat subject token (received owner, s) a =
      menu chat "Готово — вы уже авторизованы." (at s a)
  started chat subject token (failed e, s) a =
      if is_empty token
      then send chat "Нужна одноразовая ссылка привязки из установщика." no_keyboard (at s a)
      else paired chat (Api.claim_telegram_pairing json network client token subject s) (at s a)

  -- `start`
  unfoldable pub start : String → String → String → App S → App S
  start chat subject token a =
      started chat subject token (Api.resolve_telegram json network client subject a.remote) a

  -- `handleMessage` from the outcome of `ResolveTelegram` on.
  abbrev pub known : Option String → String → String → Reply Owner × S → App S → App S
  known draw chat text (failed e, s) a =
      send chat
        "Этот Telegram ещё не привязан. Откройте одноразовую ссылку, показанную установщиком."
        no_keyboard (at s a)
  known draw chat text (received admin, s) a =
      if text == "/new"
      then send chat "Как назвать новый доступ? Например: iPhone или Семья" no_keyboard
          (set_waiting chat (at s a))
      else if a.waiting chat
      then create_access draw chat admin.id text (clear_waiting chat (at s a))
      else menu chat "Управление вашим VPN" (clear_waiting chat (at s a))

  -- `handleMessage` for a text that is trimmed, from a user in a private chat.
  unfoldable pub read_text : Option String → String → String → String → App S → App S
  read_text draw chat subject text a =
      if has_prefix text "/start"
      then start chat subject (trim_space (trim_prefix text "/start")) a
      else known draw chat text (Api.resolve_telegram json network client subject a.remote) a

  abbrev pub from_user : Option String → Message → Option String → App S → App S
  from_user draw message none a = a
  from_user draw message (some subject) a =
      if message.is_private
      then read_text draw message.chat subject (trim_space message.text) a
      else a

  -- `handleMessage`
  unfoldable pub handle_message : Option String → Option Message → App S → App S
  handle_message draw none a = a
  handle_message draw (some message) a = from_user draw message message.from a

  -- `handleCallback` from the outcome of `ResolveTelegram` on.
  abbrev pub chosen : String → String → Reply Owner × S → App S → App S
  chosen chat choice (failed e, s) a = send chat "Доступ запрещён." no_keyboard (at s a)
  chosen chat choice (received admin, s) a =
      if choice == "menu:new"
      then send chat "Напишите название нового доступа." no_keyboard (set_waiting chat (at s a))
      else if choice == "menu:status"
      then status_answered chat (Api.get_health json network client s) (at s a)
      else if choice == "menu:home"
      then menu chat "Управление вашим VPN" (at s a)
      else at s a

  abbrev pub in_chat : Callback → Option String → App S → App S
  in_chat callback none a = a
  in_chat callback (some chat) a =
      chosen chat callback.payload (Api.resolve_telegram json network client callback.from a.remote)
        a

  -- `handleCallback`, without the answer to the query.
  unfoldable pub handle_callback : Callback → App S → App S
  handle_callback callback a = in_chat callback callback.chat a

  abbrev pub routed : Option String → Update → Option Callback → App S → App S
  routed draw update none a = handle_message draw update.message a
  routed draw update (some callback) a =
      if has_prefix callback.payload "menu:"
      then handle_callback callback a
      else handle_message draw update.message a

  -- What the handlers of `Options` do with an update.
  unfoldable pub handle : Option String → Update → App S → App S
  handle draw update a = routed draw update update.callback a
