-- ===== src/Board/Rounds.antt =====
-- A round of the client of HW1 with the answers of the server.
use ntu_systems_programming.Prelude.{
  arith, ℕ, ◌<◌, ◌≡◌, refl, ◌⊎◌, inl, inr, Bool, true, [], ◌∷◌, ◌++◌, some,
}
use ntu_systems_programming.Prelude.Text.{Bytes, Memory, newline}
use ntu_systems_programming.Board.Server.{Server, record_num, is_busy, check, handle, message_of}
use ntu_systems_programming.Board.Client.{post_request, from_label, content_label}
use ntu_systems_programming.Board.Slots.{check_lem}
use ntu_systems_programming.Board.Session.{round, check_text, post_text, limit_error, labels}

-- "post", with the answer of the server to "check": if every slot is busy the client prints the error
-- and sends no post; if not, it asks for the two lines and sends them. The check leaves the server
-- as it is.
pub post_round :
    (is_locked : ℕ → Bool) (s : Server) (tmp : Memory) (j : ℕ) (from content : Bytes)
    → (handle is_locked check_text tmp j s ≡ (s, some (check is_locked s)))
      × ((((p : ℕ) → p < record_num → is_busy is_locked s p ≡ true)
            × (round (post_text ++ newline ∷ []) (check is_locked s) from content
                ≡ record { output = limit_error ∷ []; sent = check_text ∷ []; goes_on = true }))
          ⊎ (¬ ((p : ℕ) → p < record_num → is_busy is_locked s p ≡ true)
              × (round (post_text ++ newline ∷ []) (check is_locked s) from content ≡ record {
                output = labels from_label ∷ labels content_label ∷ [];
                sent = check_text ∷ post_request from content ∷ [];
                goes_on = true;
              })))
unfolding handle message_of round
post_round l s tmp j from content =
    let c = check_lem l s in
    (
      refl,
      elim c.1 [
        | inl e ↦ inl (c.0.0 e, rw e refl)
        | inr e ↦ inr (λ h. ground (arith, e, c.0.1 h), rw e refl)
      ],
    )
