-- ===== src/Neko/IniFile/Sections.antt =====
-- libneko/include/nk/inifile.h: the sections that the parser keeps.
use nekosys.Neko.Text.{Text}
