-- ===== src/Bot/Dialogue.antt =====
-- The dialogue that creates an access: `/new`, and then a name.
use ez_vpn_lego.Prelude.{
  ◌≡◌, refl, ap, ◌∙◌, ◌≤◌, String, Bool, true, false, not, ◌&&◌, Option, none, some, ◌==◌, eq_self,
  string_eq, nat_eq, arith,
}
use ez_vpn_lego.Prelude.Text.{is_empty, trim_space, rune_count}
use ez_vpn_lego.Http.{after_prefix}
use ez_vpn_lego.Control as Api
use ez_vpn_lego.Control.{Client, Json, Network, Reply, received, Owner}
use package.ez_vpn_lego.Bot.{
  App, Update, has_prefix, access_answered, set_waiting, at, no_keyboard, send, create_access,
  read_text, handle_message, handle,
}
use package.ez_vpn_lego.Bot.Effects.{resolve, access-parts}

-- A text from a user in a private chat.
abbrev pub says : String → String → String → Update
says subject chat text = record {
  message = some (record { from = some subject; is_private = true; chat = chat; text = text });
  callback = none;
}

module _ {S : Type 0} (json : Json) (network : Network S) (client : Client)
    (subject chat : String) where
  new-handle :
      (draw : Option String) (a : App S) (admin : Owner) (s : S)
      → resolve json network client subject a.remote ≡ (received admin, s)
      → handle json network client draw (says subject chat "/new") a
        ≡ send chat "Как назвать новый доступ? Например: iPhone или Семья" no_keyboard
            (set_waiting chat (at s a))
  unfolding handle handle_message read_text trim_space after_prefix string_eq nat_eq
  new-handle draw a admin s h = rw h refl

  name-handle :
      (key text : String) (a : App S) (admin : Owner) (s : S)
      → resolve json network client subject a.remote ≡ (received admin, s)
      → a.waiting chat ≡ true
      → has_prefix (trim_space text) "/start" ≡ false
      → (trim_space text == "/new") ≡ false
      → handle json network client (some key) (says subject chat text) a
        ≡ create_access json network client
            (some key)
            chat
            admin.id
            (trim_space text)
            (record a { waiting = λ c. not (c == chat) && a.waiting c; remote = s })
  unfolding handle handle_message read_text
  name-handle key text a admin s h waits ordinary other = rw (ordinary, h, other, waits) refl

  create_access_fits :
      (key text admin_id : String) (a : App S)
      → is_empty (trim_space text) ≡ false
      → rune_count (trim_space text) ≤ 80
      → create_access json network client (some key) chat admin_id text a
        ≡ access_answered chat
            (trim_space text)
            (Api.create_access json network client (trim_space text) key admin_id a.remote)
            a
  unfolding create_access
  create_access_fits key text admin_id a named short = rw named (ground (arith, short))

  -- If a user whom the API resolves both times writes `/new` in a private chat and then a text that is
  -- no command and whose trimmed form is a name of 1 to 80 runes, then the bot has made one call of
  -- `CreateAccess`, with that name, the key that was drawn and the administrator's ID; the chat does
  -- not wait any more, and any other waits as before.
  pub handle-handle :
      (draw : Option String) (key text other : String) (a : App S) (admin again : Owner) (s s' : S)
      → resolve json network client subject a.remote ≡ (received admin, s)
      → resolve json network client subject s ≡ (received again, s')
      → has_prefix (trim_space text) "/start" ≡ false
      → (trim_space text == "/new") ≡ false
      → is_empty (trim_space (trim_space text)) ≡ false
      → rune_count (trim_space (trim_space text)) ≤ 80
      → (other == chat) ≡ false
      → let b =
          handle json network client
            (some key)
            (says subject chat text)
            (handle json network client draw (says subject chat "/new") a) in
        (b.remote
          ≡ (Api.create_access json network client
              (trim_space (trim_space text))
              key
              again.id
              s').1)
        × (b.waiting chat ≡ false)
        × (b.waiting other ≡ a.waiting other)
  handle-handle draw key text other a admin again s s' first second ordinary different named short
        apart =
      let asked : App S =
        send chat "Как назвать новый доступ? Например: iPhone или Семья" no_keyboard
          (set_waiting chat (at s a)) in
      let waits : asked.waiting chat ≡ true = rw (eq_self chat) refl in
      let ready : App S = record asked {
        waiting = λ c. not (c == chat) && asked.waiting c;
        remote = s';
      } in
      let whole =
        ap (handle json network client (some key) (says subject chat text))
          (new-handle draw a admin s first)
        ∙ name-handle key text asked again s' second waits ordinary different
        ∙ create_access_fits key (trim_space text) again.id ready named short in
      let (remote, waiting) =
        access-parts json network client chat (trim_space (trim_space text))
          (Api.create_access json network client (trim_space (trim_space text)) key again.id s')
          ready in
      (
        ap (λ (b : App S). b.remote) whole ∙ remote,
        ap (λ (b : App S). b.waiting chat) whole
            ∙ ap (λ (w : String → Bool). w chat) waiting
            ∙ rw (eq_self chat) refl,
        ap (λ (b : App S). b.waiting other) whole
            ∙ ap (λ (w : String → Bool). w other) waiting
            ∙ rw apart refl,
      )
