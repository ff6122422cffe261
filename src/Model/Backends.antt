-- ===== src/Model/Backends.antt =====
-- internal/model/remote.go: the supported backends of rclone and the section of a remote in
-- rclone.conf. Of a field only what the handlers read is kept: the kind of its input, its options, its
-- hint and its default are read by the pages alone, and so are the hints of a backend.
pub mod Section
use backitup.Prelude.{Bool, true, false, List, [], ◌∷◌, Text, Option, find, ◌==◌, text_eq, codes}

pub record RemoteField : Type 0 where
  pub key : Text
  pub label : Text
  pub required : Bool
  pub obscure : Bool

pub record BackendDef : Type 0 where
  pub id : Text
  pub label : Text
  pub fields : List RemoteField

abbrev field : Text → Text → Bool → Bool → RemoteField
field key label required obscure = record {
  key = key;
  label = label;
  required = required;
  obscure = obscure;
}

abbrev s3_def : BackendDef
s3_def = record {
  id = codes "s3";
  label = codes "Amazon S3";
  fields =
      field (codes "access_key_id") (codes "Access Key ID") true false
      ∷ field (codes "secret_access_key") (codes "Secret Access Key") true false
      ∷ field (codes "region") (codes "Region") true false
      ∷ [];
}

abbrev s3_compat_def : BackendDef
s3_compat_def = record {
  id = codes "s3-compat";
  label = codes "S3-Compatible (Wasabi / MinIO / R2 / …) — untested";
  fields =
      field (codes "access_key_id") (codes "Access Key ID") true false
      ∷ field (codes "secret_access_key") (codes "Secret Access Key") true false
      ∷ field (codes "endpoint") (codes "Endpoint URL") true false
      ∷ field (codes "region") (codes "Region") false false
      ∷ [];
}

abbrev pub b2_def : BackendDef
b2_def = record {
  id = codes "b2";
  label = codes "Backblaze B2";
  fields =
      field (codes "account") (codes "Application Key ID") true false
      ∷ field (codes "key") (codes "Application Key") true false
      ∷ [];
}

abbrev drive_def : BackendDef
drive_def = record {
  id = codes "drive";
  label = codes "Google Drive";
  fields =
      field (codes "service_account_credentials") (codes "Service Account JSON") true false
      ∷ field (codes "team_drive") (codes "Shared Drive ID") true false
      ∷ [];
}

abbrev sftp_def : BackendDef
sftp_def = record {
  id = codes "sftp";
  label = codes "SFTP — untested";
  fields =
      field (codes "host") (codes "Hostname / IP") true false
      ∷ field (codes "user") (codes "Username") true false
      ∷ field (codes "port") (codes "Port") false false
      ∷ field (codes "pass") (codes "Password") false true
      ∷ field (codes "key_file") (codes "Private Key Path") false false
      ∷ [];
}

abbrev webdav_def : BackendDef
webdav_def = record {
  id = codes "webdav";
  label = codes "WebDAV — untested";
  fields =
      field (codes "url") (codes "URL") true false
      ∷ field (codes "vendor") (codes "Vendor") true false
      ∷ field (codes "user") (codes "Username") true false
      ∷ field (codes "pass") (codes "Password") true true
      ∷ [];
}

abbrev azureblob_def : BackendDef
azureblob_def = record {
  id = codes "azureblob";
  label = codes "Azure Blob Storage — untested";
  fields =
      field (codes "account") (codes "Storage account name") true false
      ∷ field (codes "key") (codes "Storage account key") true false
      ∷ [];
}

abbrev ftp_def : BackendDef
ftp_def = record {
  id = codes "ftp";
  label = codes "FTP — untested";
  fields =
      field (codes "host") (codes "Hostname / IP") true false
      ∷ field (codes "port") (codes "Port") false false
      ∷ field (codes "user") (codes "Username") false false
      ∷ field (codes "pass") (codes "Password") false true
      ∷ [];
}

unfoldable pub backends : List BackendDef
backends =
    s3_def ∷ s3_compat_def ∷ b2_def ∷ drive_def ∷ sftp_def ∷ webdav_def ∷ azureblob_def ∷ ftp_def
    ∷ []

unfoldable pub find_backend : Text → Option BackendDef
unfolding backends
find_backend id = find (λ b. b.id == id) backends
