-- ===== src/Service/Handle/Guard.antt =====
-- Which requests need a user, and what happens to one that has none.
use cloud_native_entry_task.Prelude.{◌≡◌, ◌⊎◌, inl, inr, String}
use cloud_native_entry_task.Protocol.Messages.{
  Request, op_get_profile, op_get_profile_picture, op_update_nickname, op_upload_profile_picture,
}
use cloud_native_entry_task.GoLib.Errors.{Error, err}
use cloud_native_entry_task.Service.Interfaces.{Service}
use cloud_native_entry_task.Service.Account.{require_user}
use cloud_native_entry_task.Service.Handle.{BodyCodec, handle}

-- The operations on the user's own data.
abbrev pub IsGuarded : String → Type 0
IsGuarded op =
    (op ≡ op_get_profile)
    ⊎ (op ≡ op_get_profile_picture)
    ⊎ (op ≡ op_update_nickname)
    ⊎ (op ≡ op_upload_profile_picture)

module _ {W : Type 0} (s : Service W) (c : BodyCodec) where
  -- A request for the user's own data whose token does not give a user fails with the error of that
  -- test, and nothing happens after it.
  pub handle-require_user :
      (req : Request) (w : W) (e : Error)
      → IsGuarded req.op
      → (require_user s req.token w).0 ≡ err e
      → handle s c req w ≡ (err e, (require_user s req.token w).1)
  unfolding handle
  handle-require_user req w e (inl op) refused = rw (op, handle) (rw refused)
  handle-require_user req w e (inr (inl op)) refused = rw (op, handle) (rw refused)
  handle-require_user req w e (inr (inr (inl op))) refused = rw (op, handle) (rw refused)
  handle-require_user req w e (inr (inr (inr op))) refused = rw (op, handle) (rw refused)
