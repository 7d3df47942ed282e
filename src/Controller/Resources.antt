-- ===== src/Controller/Resources.antt =====
-- cloud_native_entry_task/controllers/internal/controller: the objects that the controller wants,
-- of resources.go and spec.go, with the config map and the service brought about.
use cloud_native_entry_task.Prelude.{
  true, some, none, ℕ, none, List, [], ◌∷◌, ◌++◌, Bytes, codes, take, String,
}
use cloud_native_entry_task.Prelude.Int.{pos}
use cloud_native_entry_task.GoLib.Errors.{Result, ok, err}
use cloud_native_entry_task.GoLib.Strings.{itoa_ℤ}
use cloud_native_entry_task.Operator.Types.{Labels, OwnerReference, Probe, Pod, pending}
use cloud_native_entry_task.Operator.Resources.{set_label}
use cloud_native_entry_task.Controller.Client.{Unstructured, ResourceRequirements, Tools}
use cloud_native_entry_task.Controller.Spec.{EntrySpec}

abbrev pub app_http_port : ℕ
app_http_port = 8080

abbrev pub app_gateway_port : ℕ
app_gateway_port = 8081

abbrev pub app_tcp_port : ℕ
app_tcp_port = 9000

abbrev pub label_managed_by : String
label_managed_by = "app.kubernetes.io/managed-by"

abbrev pub label_cr_name : String
label_cr_name = "dbcp.shopee.io/cr-name"

abbrev pub label_spec_hash : String
label_spec_hash = "dbcp.shopee.io/spec-hash"

abbrev pub controller_id : Bytes
controller_id = codes "dbcp-entry-controller"

unfoldable pub managed_labels : Bytes → Labels
managed_labels cr_name =
    ("app.kubernetes.io/name", codes "dbcp-entry-service")
    ∷ ("app.kubernetes.io/instance", cr_name)
    ∷ (label_managed_by, controller_id)
    ∷ (label_cr_name, cr_name)
    ∷ []

unfoldable pub managed_selector : Bytes → Bytes
managed_selector cr_name =
    codes label_managed_by
    ++ (b'=' ∷ (controller_id ++ (b',' ∷ (codes label_cr_name ++ (b'=' ∷ cr_name)))))

unfoldable pub config_map_name : Bytes → Bytes
config_map_name cr_name = cr_name ++ codes "-config"

abbrev pub http_probe : String → ℕ → ℕ → Probe
http_probe path initial_delay period = record {
  path = path;
  initial_delay_seconds = initial_delay;
  period_seconds = period;
}

abbrev pub owner_refs : {O : Type 0} → Unstructured O → List OwnerReference
owner_refs cr =
    record {
      api_version = "dbcp.shopee.io/v1alpha1";
      kind = "DbcpEntryService";
      name = cr.name;
      uid = cr.uid;
      controller = some true;
      block_owner_deletion = none;
    }
    ∷ []

module _ {O Q : Type 0} (tools : Tools (ResourceRequirements Q)) (cr : Unstructured O)
    (spec : EntrySpec Q) where
  unfoldable pub stable_token_secret : Bytes
  stable_token_secret = tools.sha256_hex (cr.namespace ++ (b'/' ∷ (cr.name ++ (b'/' ∷ cr.uid))))

  unfoldable pub desired_config_data : Labels
  unfolding stable_token_secret
  desired_config_data =
      ("DBCP_TARGET_DB", spec.config.target_db)
      ∷ ("DBCP_TARGET_REDIS", spec.config.target_redis)
      ∷ ("DBCP_SERVICE_EXPORT_PORT", itoa_ℤ spec.config.service_export_port)
      ∷ ("APP_TCP_ADDR", codes "127.0.0.1:9000")
      ∷ ("APP_HTTP_ADDR", codes "127.0.0.1:8081")
      ∷ ("APP_HTTP_TCP_ADDR", codes "127.0.0.1:9000")
      ∷ ("APP_PROFILE_PICTURE_DIR", codes "/app/runtime/profile-pictures")
      ∷ ("APP_PROFILE_PICTURE_BASE_URL", codes "/api/me/profile-picture")
      ∷ ("APP_REDIS_KEY_PREFIX", codes "go-entry-task")
      ∷ ("APP_TOKEN_SECRET", stable_token_secret)
      ∷ ("APP_DB_MAX_OPEN_CONNS", codes "128")
      ∷ ("APP_DB_MAX_IDLE_CONNS", codes "32")
      ∷ ("APP_TCP_WORKERS", codes "64")
      ∷ ("APP_TCP_QUEUE_SIZE", codes "2048")
      ∷ ("APP_TCP_MAX_FRAME_BYTES", codes "8388608")
      ∷ ("APP_HTTP_MAX_BODY_BYTES", codes "4194304")
      ∷ ("APP_UPLOAD_MAX_BYTES", codes "2097152")
      ∷ ("APP_SESSION_TTL", codes "24h")
      ∷ ("APP_DB_CONN_MAX_LIFETIME", codes "5m")
      ∷ ("APP_REDIS_DIAL_TIMEOUT", codes "2s")
      ∷ ("APP_REDIS_IO_TIMEOUT", codes "2s")
      ∷ ("APP_PROFILE_PICTURE_CACHE_SCOPE", codes "redis")
      ∷ []

  -- An error of JSON is ignored, and leaves no bytes.
  hash_of : Result Bytes → Bytes
  hash_of (ok json) = take 12 (tools.sha256_hex json)
  hash_of (err e) = take 12 (tools.sha256_hex [])

  unfoldable pub desired_spec_hash : Bytes
  unfolding hash_of desired_config_data
  desired_spec_hash = hash_of (
      tools.marshal_spec_hash (record {
        config_map = desired_config_data;
        image = spec.service.image;
        resources = spec.service.resources;
        owner = ("apiVersion", "dbcp.shopee.io/v1alpha1") ∷ ("kind", "DbcpEntryService") ∷ [];
        ports =
            ("http", pos app_http_port)
            ∷ ("httpGateway", pos app_gateway_port)
            ∷ ("tcpBackend", pos app_tcp_port)
            ∷ ("service", spec.config.service_export_port)
            ∷ [];
      }))

  unfoldable pub desired_pod : Bytes → Pod (ResourceRequirements Q)
  unfolding managed_labels config_map_name
  desired_pod spec_hash = record {
    name = [];
    generate_name = cr.name ++ codes "-";
    namespace = cr.namespace;
    labels = set_label label_spec_hash spec_hash (managed_labels cr.name);
    annotations = (label_spec_hash, spec_hash) ∷ [];
    owners = owner_refs cr;
    creation_timestamp = 0;
    deletion_timestamp = none;
    phase = pending;
    spec = record {
      container = "dbcp-entry-service";
      image = spec.service.image;
      ports =
          record { name = "http"; container_port = app_http_port }
          ∷ record { name = "gateway"; container_port = app_gateway_port }
          ∷ record { name = "tcp-backend"; container_port = app_tcp_port }
          ∷ [];
      env_from = config_map_name cr.name;
      readiness_probe = http_probe "/api/health" 5 5;
      liveness_probe = http_probe "/api/health" 15 10;
      resources = spec.service.resources;
    };
  }
