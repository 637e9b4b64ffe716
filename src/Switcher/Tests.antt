-- ===== src/Switcher/Tests.antt =====
-- The context of SetContext's tests, under an alias.
use kswitch.Prelude.{text}
use kswitch.Search.{DiscoveredContext}
use kswitch.SetContext.Tests.{context}

abbrev aliased : DiscoveredContext
aliased = record (context (text "v/c")) { alias = text "live" }
