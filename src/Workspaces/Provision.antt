-- ===== src/Workspaces/Provision.antt =====
-- The rotation of the key behind a memory link.
use recall_select.Prelude.{Bool, some, String}
use recall_select.Documents.{ApiKey}
use recall_select.ApiKeys.{is_labeled}

-- The keys behind the user's memory link.
abbrev pub is_link_key : String → ApiKey → Bool
is_link_key user_id k = is_labeled user_id (some "default") k
