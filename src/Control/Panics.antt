-- ===== src/Control/Panics.antt =====
-- A session that ends while a frame for it is on its way.
use mathlib.Core.Option
use muvee.Prelude.{ℕ, ◌≡◌, refl, ap, ◌∙◌, true, some, [], ◌∷◌, first, update, if◌then◌else◌}
use muvee.Prelude.Keys.{first-update, first-holds}
use muvee.Control.{
  Frame, Channel, SessionEntry, AgentControlConn, channel_of, is_handle, find_channel, close_found,
  close_session, hold, look_up, send_to, send_held, closes, looks_up, sends, step, run,
}

closed-channel :
    (n : ℕ) (a : AgentControlConn) (c : Channel)
    → find_channel n a ≡ some c
    → first (is_handle n) (update (is_handle n) (λ x. record x { closed = true }) a.channels)
      ≡ some (record c { closed = true })
closed-channel n a c k =
    first-update (is_handle n) (is_handle n) (λ x. record x { closed = true }) a.channels
      (λ x. refl)
    ∙ ap (Option.map (λ x. if is_handle n x then record x { closed = true } else x)) k
    ∙ rw (first-holds (is_handle n) a.channels c k) refl

-- When a session of an agent ends between the lookup of its channel for a frame and the send, the
-- send panics. The session and its channel are there before.
pub close-panics :
    (a : AgentControlConn) (f : Frame) (e : SessionEntry) (c : Channel)
    → channel_of f.session a ≡ some e
    → find_channel e.handle a ≡ some c
    → (run (looks_up f ∷ closes f.session ∷ sends ∷ []) a).panicked ≡ true
unfolding run step look_up hold close_session close_found send_held send_to
close-panics a f e c h k = rw (h, h, closed-channel e.handle a c k) refl
