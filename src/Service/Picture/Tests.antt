-- ===== src/Service/Picture/Tests.antt =====
-- A world of files, rows and cached pictures.
use cloud_native_entry_task.Prelude.{
  ℕ, suc, ◌&&◌, subst, ◌≡◌, refl, sym, ap, ◌∙◌, inl, false, Option, none, some, [], ◌∷◌, ◌++◌,
  Bytes, codes, bytes_eq, bytes_eq_refl, arith, ◌==◌, if◌then◌else◌,
}
use cloud_native_entry_task.Prelude.Int.{pos}
use cloud_native_entry_task.GoLib.Base64.{std, encode, decode}
use cloud_native_entry_task.GoLib.Strings.{member, trim_space, first_part, itoa, itoa_ℤ}
use cloud_native_entry_task.GoLib.Errors.{Error, store_not_found, not_exist, Result, ok, err}
use cloud_native_entry_task.GoLib.Exec.{pure, raise}
use cloud_native_entry_task.Protocol.Messages.{UploadProfilePictureBody}
use cloud_native_entry_task.Service.Interfaces.{Host, UserStore, PictureCache, Service}
use cloud_native_entry_task.Service.Account.{to_protocol_profile}
use cloud_native_entry_task.Service.Picture.{
  content_type_of, extension_for, is_supported, accept_upload, store_picture, refresh_cache,
  upload_profile_picture, get_profile_picture,
}
use cloud_native_entry_task.Service.Picture.ReadBack.{
  View, text_of, IsCache, KeepsPictures, upload_read_back,
}
use cloud_native_entry_task.Service.Token.Sample.{sample}
use cloud_native_entry_task.Store.Mysql.{UserProfile}

record Shelf : Type 0 where
  file : Bytes → Option Bytes
  row : ℕ → Option UserProfile
  cached : ℕ → ℕ → Option (Bytes × Bytes)

abbrev view : View Shelf
view = record { file = λ w. w.file; row = λ w. w.row; cached = λ w. w.cached }

abbrev with_picture : UserProfile → Bytes → Bytes → ℕ → UserProfile
with_picture p path mime size = record p {
  profile_picture_path = text_of path;
  profile_picture_mime = text_of mime;
  profile_picture_size = size;
  profile_version = suc p.profile_version;
}

abbrev put : ℕ → UserProfile → Shelf → Shelf
put id p w = record w { row = λ u. if u == id then some p else w.row u }

abbrev updated : ℕ → Bytes → Bytes → ℕ → Option UserProfile → Shelf → Result UserProfile × Shelf
updated id path mime size none w = (err store_not_found, w)
updated id path mime size (some p) w =
    (ok (with_picture p path mime size), put id (with_picture p path mime size) w)

abbrev looked_up : {A : Type 0} → Error → Option A → Result A
looked_up e none = err e
looked_up e (some a) = ok a

abbrev store : UserStore Shelf
store = record {
  get_user_auth_by_username = λ name. raise store_not_found;
  get_user_profile_by_id = λ id w. (looked_up store_not_found (w.row id), w);
  update_nickname = λ id nickname. raise store_not_found;
  update_profile_picture = λ id path mime size w. updated id path mime size (w.row id) w;
}

abbrev cache : PictureCache Shelf
cache = record {
  save_profile_picture = λ id n mime content w. (
    ok tt,
    record w {
      cached = λ u m. if (u == id) && (m == n) then some (mime, content) else w.cached u m;
    },
  );
  get_profile_picture = λ id n w. (ok (w.cached id n), w);
  delete_profile_picture = λ id n w. (ok tt, record w { cached = λ u m. none });
}

abbrev host : Host Shelf
host = record {
  clock = λ w. (pos 5_000_000_000, w);
  rand_read = λ n. raise not_exist;
  mkdir_all = λ path. pure tt;
  write_file = λ path content w.
      (ok tt, record w { file = λ q. if bytes_eq q path then some content else w.file q });
  remove = λ path. pure tt;
  read_file = λ path w. (looked_up not_exist (w.file path), w);
  file_join = λ a b. a ++ (b'/' ∷ b);
  file_dir = λ path. path;
  file_clean = λ path. path;
  detect_content_type = λ content. codes "image/png";
  extensions_by_type = λ content_type. some (codes ".png" ∷ []);
  pbkdf2 = λ password salt iterations n. ok [];
  token_codec = sample;
}

abbrev service : Service Shelf
service = record {
  host = host;
  store = store;
  sessions = none;
  picture_cache = some cache;
  tokens = record { secret = codes "0123456789abcdef"; ttl = pos 60_000_000_000 };
  upload_dir = codes "runtime";
  allowed_mimes = codes "image/png" ∷ [];
  max_upload_bytes = pos 16;
  profile_picture_base_url = codes "/api/me/profile-picture";
  max_nickname_bytes = 764;
}

abbrev Updated : ℕ → Bytes → Bytes → UserProfile → Shelf → Shelf → Type 0
Updated id path mime p w w' =
    (p.profile_picture_path ≡ text_of path)
    × (p.profile_picture_mime ≡ text_of mime)
    × ((old : UserProfile) → w.row id ≡ some old → p.profile_version ≡ suc old.profile_version)
    × (w'.row id ≡ some p)
    × ((q : Bytes) → w'.file q ≡ w.file q)
    × ((n : ℕ) → w'.cached id n ≡ w.cached id n)

updated-Updated :
    (id : ℕ) (path mime : Bytes) (size : ℕ) (p : UserProfile) (o : Option UserProfile)
    (w w' : Shelf)
    → w.row id ≡ o
    → updated id path mime size o w ≡ (ok p, w')
    → Updated id path mime p w w'
updated-Updated id path mime size p none w w' e h = absurd (cc)
updated-Updated id path mime size p (some old) w w' e h =
    let new_row : with_picture old path mime size ≡ p = cc in
    subst (Updated id path mime p w) (ap (λ r. r.1) h) (
      subst (λ q. Updated id path mime q w (put id (with_picture old path mime size) w)) new_row
        (refl, refl, λ o f. grind arith, ground arith, λ q. refl, λ n. refl))

cache-IsCache : IsCache service view cache
cache-IsCache = record {
  gets = λ id n w. refl;
  gets_keep = λ id n w path. refl;
  saves = λ id n mime content w. (λ path. refl, λ u. refl, inl (ground arith));
  deletes = λ id n m w. (λ path. refl, λ u. refl, inl refl);
}

service-KeepsPictures : KeepsPictures service view
service-KeepsPictures = record {
  finds = λ id p w h. (ap (looked_up store_not_found) h, λ path. refl, (refl, λ n. refl));
  ticks = λ id w. (refl, λ n. refl);
  makes = λ path id w. (refl, λ n. refl);
  updates =
      λ id path mime size p w w' h. updated-Updated id path mime size p (w.row id) w w' refl h;
  writes_apart = λ path content id w. (refl, λ n. refl);
  writes = λ path content w w' h. ap (λ r. r.1.file path) (sym h) ∙ rw (bytes_eq_refl path) refl;
  reads = λ path content w h. ap (looked_up not_exist) h;
  cleans = λ id t content_type file_name. refl;
  caches = λ c e. let same : cache ≡ c = cc in subst (IsCache service view) same cache-IsCache;
}

abbrev seven : UserProfile
seven = record {
  id = 7;
  username = codes "user_0000007";
  nickname = codes "Seven";
  profile_picture_path = record { valid = false; string = [] };
  profile_picture_mime = record { valid = false; string = [] };
  profile_picture_size = 0;
  profile_version = 0;
}

abbrev shelf : Shelf
shelf = record {
  file = λ path. none;
  row = λ id. if id == 7 then some seven else none;
  cached = λ id n. none;
}

abbrev body : UploadProfilePictureBody
body = record {
  file_name = codes "me.png";
  content_type = codes "image/png; charset=x";
  data_base64 = codes "AAEC";
}

abbrev after : Shelf
after = (upload_profile_picture service 7 body shelf).1

abbrev stored_profile : UserProfile
stored_profile = with_picture seven (codes "7/5000000000.png") (codes "image/png") 3

uploaded :
    upload_profile_picture service 7 body shelf
    ≡ (ok (to_protocol_profile service stored_profile), after)
unfolding upload_profile_picture decode accept_upload is_supported member content_type_of trim_space
    first_part store_picture refresh_cache itoa itoa_ℤ extension_for
uploaded = refl

upload_read_back_example :
    (content : Bytes) × (decode std body.data_base64 ≡ some content)
    × ((get_profile_picture service 7 after).0
        ≡ ok (record {
          content_type = content_type_of service body (codes "image/png");
          data_base64 = encode std content;
        }))
unfolding member bytes_eq
upload_read_back_example =
    upload_read_back service view service-KeepsPictures body 7 shelf after
      (to_protocol_profile service stored_profile) seven (refl, refl) refl uploaded
