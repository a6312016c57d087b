-- ===== src/DataPlane/Exa.antt =====
-- The routes of app/api/exa_compat.py.
use firecrawl_manger.DataPlane.{Call, Gateway, Answered, plain, exa_path, for_exa}

unfoldable pub exa_search : Call → Gateway → Answered × Gateway
unfolding plain
exa_search c g = plain (for_exa c) "POST" (exa_path c) g

unfoldable pub exa_find_similar : Call → Gateway → Answered × Gateway
unfolding plain
exa_find_similar c g = plain (for_exa c) "POST" (exa_path c) g

unfoldable pub exa_contents : Call → Gateway → Answered × Gateway
unfolding plain
exa_contents c g = plain (for_exa c) "POST" (exa_path c) g

unfoldable pub exa_answer : Call → Gateway → Answered × Gateway
unfolding plain
exa_answer c g = plain (for_exa c) "POST" (exa_path c) g
