-- ===== src/Server/Pages.antt =====
-- The console's pages that internal/server/server.go registers.
use oximetric.Base.{Str, lit}

pub data ConsolePage : Type 0 where
  dashboard events devices geo users_analytics projects console_users account help about :
      ConsolePage

-- The path of a page's pattern.
abbrev pub path_of : ConsolePage → Str
path_of ConsolePage.dashboard = lit "/dashboard"
path_of ConsolePage.events = lit "/events"
path_of ConsolePage.devices = lit "/devices"
path_of ConsolePage.geo = lit "/geo"
path_of ConsolePage.users_analytics = lit "/users-analytics"
path_of ConsolePage.projects = lit "/projects"
path_of ConsolePage.console_users = lit "/console-users"
path_of ConsolePage.account = lit "/account"
path_of ConsolePage.help = lit "/help"
path_of ConsolePage.about = lit "/about"
