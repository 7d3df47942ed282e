-- ===== src/Operator/Client/Logged.antt =====
-- A client that also records the calls which change something, in order, whether they succeed.
use cloud_native_entry_task.Prelude.{List, [], ◌∷◌, ◌++◌}
use cloud_native_entry_task.GoLib.Exec.{Exec}
use cloud_native_entry_task.Operator.Types.{DbcpEntryService, Pod}
use cloud_native_entry_task.Operator.Client.{Key, Client}

pub data Call (R : Type 0) : Type 0 where
  update : DbcpEntryService R → Call R
  delete_pod create_pod : Pod R → Call R
  delete_service delete_config_map put_config_map put_service : Key → Call R

module _ {W R : Type 0} where
  abbrev pub record_call : {A : Type 0} → Call R → Exec W A → Exec (W × List (Call R)) A
  record_call call m (w, log) = let (r, w') = m w in (r, (w', log ++ call ∷ []))

  abbrev pub silently : {A : Type 0} → Exec W A → Exec (W × List (Call R)) A
  silently m (w, log) = let (r, w') = m w in (r, (w', log))

  abbrev pub logged : Client W R → Client (W × List (Call R)) R
  logged c = record {
    get = λ key. silently (c.get key);
    update = λ entry. record_call (update entry) (c.update entry);
    list_pods = λ namespace selector. silently (c.list_pods namespace selector);
    delete_pod = λ pod. record_call (delete_pod pod) (c.delete_pod pod);
    create_pod = λ pod. record_call (create_pod pod) (c.create_pod pod);
    delete_service = λ key. record_call (delete_service key) (c.delete_service key);
    delete_config_map = λ key. record_call (delete_config_map key) (c.delete_config_map key);
    create_or_update_config_map =
        λ key mutate. record_call (put_config_map key) (c.create_or_update_config_map key mutate);
    create_or_update_service =
        λ key mutate. record_call (put_service key) (c.create_or_update_service key mutate);
  }
