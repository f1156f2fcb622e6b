-- ===== src/Panel/Access/Tests.antt =====
-- An owner, an administrator and a stranger (telegram_panel/api/middleware/auth.py).
use scalping.Prelude.{ℕ, Option, none, [], ◌∷◌}
use scalping.Panel.Access.{Auth, User}
use scalping.Panel.Access.Rights.{IsConsistentCache}

abbrev nobody : ℕ → Option (User × ℕ)
nobody id = none

abbrev auth : Auth
auth = record { owner_id = 1; admin_ids = 2 ∷ []; cache_ttl = 30; cache = nobody }

nobody-IsConsistentCache : IsConsistentCache auth
nobody-IsConsistentCache id = tt
