-- ===== src/Operator/Resources.antt =====
-- operator/internal/controller/dbcpentryservice_controller.go: what the reconciler wants to exist.
use cloud_native_entry_task.Prelude.{
  ℕ, none, List, [], ◌∷◌, ◌++◌, Bytes, codes, take, String, str_eq, if◌then◌else◌,
}
use cloud_native_entry_task.Prelude.Int.{pos}
use cloud_native_entry_task.GoLib.Strings.{itoa_ℤ}
use cloud_native_entry_task.GoLib.Errors.{Result, ok, err}
use cloud_native_entry_task.Operator.Types.{DbcpEntryService, Labels, OwnerReference, Pod, pending}
use cloud_native_entry_task.Operator.Client.{Library, SpecHashData}

abbrev pub app_http_port : ℕ
app_http_port = 8080

abbrev pub app_gateway_port : ℕ
app_gateway_port = 8081

abbrev pub app_tcp_port : ℕ
app_tcp_port = 9000

abbrev pub label_managed_by : String
label_managed_by = "app.kubernetes.io/managed-by"

abbrev pub label_cr_name : String
label_cr_name = "dbcp.shopee.io/cr-name"

abbrev pub label_spec_hash : String
label_spec_hash = "dbcp.shopee.io/spec-hash"

abbrev pub controller_id : Bytes
controller_id = codes "dbcp-entry-controller"

abbrev pub finalizer : String
finalizer = "dbcp.shopee.io/dbcp-entry-service-finalizer"

unfoldable pub managed_labels : Bytes → Labels
managed_labels cr_name =
    ("app.kubernetes.io/name", codes "dbcp-entry-service")
    ∷ ("app.kubernetes.io/instance", cr_name)
    ∷ (label_managed_by, controller_id)
    ∷ (label_cr_name, cr_name)
    ∷ []

-- The selector of an entry's pods.
unfoldable pub pod_selector : Bytes → Labels
pod_selector cr_name = (label_managed_by, controller_id) ∷ (label_cr_name, cr_name) ∷ []

unfoldable pub config_map_name : Bytes → Bytes
config_map_name cr_name = cr_name ++ codes "-config"

-- `m[key]`: the empty text where the key is missing.
unfoldable pub label : String → Labels → Bytes
label key [] = []
label key ((k, v) ∷ rest) = if str_eq k key then v else label key rest

-- `m[key] = value`
unfoldable pub set_label : String → Bytes → Labels → Labels
set_label key value [] = (key, value) ∷ []
set_label key value ((k, v) ∷ rest) =
    if str_eq k key then (k, value) ∷ rest else (k, v) ∷ set_label key value rest

module _ {R : Type 0} (lib : Library R) where
  unfoldable pub stable_token_secret : DbcpEntryService R → Bytes
  stable_token_secret entry =
      lib.sha256_hex (entry.namespace ++ (b'/' ∷ (entry.name ++ (b'/' ∷ entry.uid))))

  unfoldable pub desired_config_data : DbcpEntryService R → Labels
  unfolding stable_token_secret
  desired_config_data entry =
      ("DBCP_TARGET_DB", entry.spec.config.target_db)
      ∷ ("DBCP_TARGET_REDIS", entry.spec.config.target_redis)
      ∷ ("DBCP_SERVICE_EXPORT_PORT", itoa_ℤ entry.spec.config.service_export_port)
      ∷ ("APP_TCP_ADDR", codes "127.0.0.1:9000")
      ∷ ("APP_HTTP_ADDR", codes "127.0.0.1:8081")
      ∷ ("APP_HTTP_TCP_ADDR", codes "127.0.0.1:9000")
      ∷ ("APP_PROFILE_PICTURE_DIR", codes "/app/runtime/profile-pictures")
      ∷ ("APP_PROFILE_PICTURE_BASE_URL", codes "/api/me/profile-picture")
      ∷ ("APP_REDIS_KEY_PREFIX", codes "go-entry-task")
      ∷ ("APP_TOKEN_SECRET", stable_token_secret entry)
      ∷ ("APP_DB_MAX_OPEN_CONNS", codes "128")
      ∷ ("APP_DB_MAX_IDLE_CONNS", codes "32")
      ∷ ("APP_TCP_WORKERS", codes "64")
      ∷ ("APP_TCP_QUEUE_SIZE", codes "2048")
      ∷ ("APP_TCP_MAX_FRAME_BYTES", codes "8388608")
      ∷ ("APP_HTTP_MAX_BODY_BYTES", codes "4194304")
      ∷ ("APP_UPLOAD_MAX_BYTES", codes "2097152")
      ∷ ("APP_SESSION_TTL", codes "24h")
      ∷ ("APP_DB_CONN_MAX_LIFETIME", codes "5m")
      ∷ ("APP_REDIS_DIAL_TIMEOUT", codes "2s")
      ∷ ("APP_REDIS_IO_TIMEOUT", codes "2s")
      ∷ ("APP_PROFILE_PICTURE_CACHE_SCOPE", codes "redis")
      ∷ []

  unfoldable pub spec_hash_data : DbcpEntryService R → SpecHashData R
  unfolding desired_config_data
  spec_hash_data entry = record {
    config_map = desired_config_data entry;
    image = entry.spec.service.image;
    resources = entry.spec.service.resources;
    owner = ("apiVersion", "dbcp.shopee.io/v1alpha1") ∷ ("kind", "DbcpEntryService") ∷ [];
    ports =
        ("http", pos app_http_port)
        ∷ ("httpGateway", pos app_gateway_port)
        ∷ ("tcpBackend", pos app_tcp_port)
        ∷ ("service", entry.spec.config.service_export_port)
        ∷ [];
  }

  hash_of : Result Bytes → Result Bytes
  hash_of (ok json) = ok (take 12 (lib.sha256_hex json))
  hash_of (err e) = err e

  unfoldable pub calculate_spec_hash : DbcpEntryService R → Result Bytes
  unfolding hash_of spec_hash_data
  calculate_spec_hash entry = hash_of (lib.marshal_spec_hash (spec_hash_data entry))

  -- An owner reference that is refused is left out.
  owners_or_none : Result (List OwnerReference) → List OwnerReference
  owners_or_none (ok owners) = owners
  owners_or_none (err e) = []

  unfoldable pub desired_pod : DbcpEntryService R → Bytes → Pod R
  unfolding managed_labels set_label config_map_name owners_or_none
  desired_pod entry spec_hash = record {
    name = [];
    generate_name = entry.name ++ codes "-";
    namespace = entry.namespace;
    labels = set_label label_spec_hash spec_hash (managed_labels entry.name);
    annotations = (label_spec_hash, spec_hash) ∷ [];
    owners = owners_or_none (lib.set_controller_reference entry []);
    creation_timestamp = 0;
    deletion_timestamp = none;
    phase = pending;
    spec = record {
      container = "dbcp-entry-service";
      image = entry.spec.service.image;
      ports =
          record { name = "http"; container_port = app_http_port }
          ∷ record { name = "gateway"; container_port = app_gateway_port }
          ∷ record { name = "tcp-backend"; container_port = app_tcp_port }
          ∷ [];
      env_from = config_map_name entry.name;
      readiness_probe = record {
        path = "/api/health";
        initial_delay_seconds = 5;
        period_seconds = 5;
      };
      liveness_probe = record {
        path = "/api/health";
        initial_delay_seconds = 15;
        period_seconds = 10;
      };
      resources = entry.spec.service.resources;
    };
  }
