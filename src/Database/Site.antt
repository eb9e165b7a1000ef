-- ===== src/Database/Site.antt =====
-- The tables of prisma/schema.prisma that serve the landing page: settings, notes, the list of
-- `La señal` and the messages of the contact form.
use kori_backend.Prelude.{ℕ, Bool, ◌||◌, Option, String, str_eq}

pub record AppSetting : Type 0 where
  pub key : String
  pub value : String

pub record SignalSignup : Type 0 where
  pub id : String
  pub name : String
  pub email : String
  pub locale : String
  pub marketing_opt_in : Bool
  pub privacy_version : String
  pub ip_hash : Option String
  pub created_at : ℕ

pub record ContactMessage : Type 0 where
  pub id : String
  pub name : String
  pub email : String
  pub message : String
  pub locale : String
  pub ip_hash : Option String
  pub created_at : ℕ

pub data NoteType : Type 0 where
  text drawing : NoteType

pub data NoteStatus : Type 0 where
  pending approved : NoteStatus

-- The rotation, which may be negative, is kept as the number of degrees above -15.
pub record Note : Type 0 where
  pub id : String
  pub type : NoteType
  pub status : NoteStatus
  pub recipient_name : String
  pub message : Option String
  pub image_url : Option String
  pub storage_path : Option String
  pub color : Option String
  pub rotation : ℕ
  pub position_x : ℕ
  pub position_y : ℕ
  pub z_index : ℕ
  pub ip_hash : Option String
  pub user_agent_hash : Option String
  pub created_at : ℕ

abbrev pub AppSetting_clash : AppSetting → AppSetting → Bool
AppSetting_clash a b = str_eq a.key b.key

abbrev pub SignalSignup_clash : SignalSignup → SignalSignup → Bool
SignalSignup_clash a b = str_eq a.id b.id || str_eq a.email b.email

abbrev pub ContactMessage_clash : ContactMessage → ContactMessage → Bool
ContactMessage_clash a b = str_eq a.id b.id

abbrev pub Note_clash : Note → Note → Bool
Note_clash a b = str_eq a.id b.id
