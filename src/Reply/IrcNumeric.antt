-- ===== src/Reply/IrcNumeric.antt =====
-- The codes of common/IrcHelpers.hpp.
use ft_irc.Base.{Text, codes}

abbrev pub rpl_welcome : Text
rpl_welcome = codes "001"

abbrev pub rpl_yourhost : Text
rpl_yourhost = codes "002"

abbrev pub rpl_created : Text
rpl_created = codes "003"

abbrev pub rpl_myinfo : Text
rpl_myinfo = codes "004"

abbrev pub err_unknowncommand : Text
err_unknowncommand = codes "421"

abbrev pub err_notregistered : Text
err_notregistered = codes "451"

abbrev pub err_needmoreparams : Text
err_needmoreparams = codes "461"

abbrev pub err_nonicknamegiven : Text
err_nonicknamegiven = codes "431"

abbrev pub err_erroneusnickname : Text
err_erroneusnickname = codes "432"

abbrev pub err_nicknameinuse : Text
err_nicknameinuse = codes "433"

abbrev pub err_alreadyregistered : Text
err_alreadyregistered = codes "462"

abbrev pub err_passwdmismatch : Text
err_passwdmismatch = codes "464"

abbrev pub err_noorigin : Text
err_noorigin = codes "409"
